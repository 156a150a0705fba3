-- ===== src/Programs/Ends.antt =====
-- What a part of a program ends with, and what it has done then.
use turris_updater.Base.{◌≡◌, ◌∙◌, Bool, List, []}
use turris_updater.Programs.Actions.{Action, Part, goes, aborts, after, ◌>>=◌, ◌>>◌}
use turris_updater.Programs.Quiet.{chosen, Quiet, chosen-append}

-- It holds of the value, if the part goes on.
abbrev pub Leads : {A : Type 0} → (A → Type 0) → Part A → Type 0
Leads P (goes done x) = P x
Leads P (aborts done) = Unit

-- If the part goes on with a value, the actions that a test takes are those of the value.
abbrev pub Finishes : {A : Type 0} → (Action → Bool) → (A → List Action) → Part A → Type 0
Finishes test expected (goes done x) = chosen test done ≡ expected x
Finishes test expected (aborts done) = Unit

pub Leads-after :
    {A : Type 0} (P : A → Type 0) (done : List Action) (m : Part A)
    → Leads P m
    → Leads P (after done m)
Leads-after P done (goes more x) h = h
Leads-after P done (aborts more) h = tt

pub Leads-bind :
    {A B : Type 0} (P : B → Type 0) (m : Part A) (f : A → Part B)
    → ((x : A) → Leads P (f x))
    → Leads P (m >>= f)
Leads-bind P (goes done x) f h = Leads-after P done (f x) (h x)
Leads-bind P (aborts done) f h = tt

-- With what is known of the value.
pub Leads-chain :
    {A B : Type 0} (Q : A → Type 0) (P : B → Type 0) (m : Part A) (f : A → Part B)
    → Leads Q m
    → ((x : A) → Q x → Leads P (f x))
    → Leads P (m >>= f)
Leads-chain Q P (goes done x) f g h = Leads-after P done (f x) (h x g)
Leads-chain Q P (aborts done) f g h = tt

pub Leads-then :
    {A B : Type 0} (P : B → Type 0) (m : Part A) (n : Part B) → Leads P n → Leads P (m >> n)
Leads-then P (goes done x) n h = Leads-after P done n h
Leads-then P (aborts done) n h = tt

pub Finishes-after :
    {A : Type 0} (test : Action → Bool) (expected : A → List Action) (done : List Action)
    (m : Part A)
    → chosen test done ≡ []
    → Finishes test expected m
    → Finishes test expected (after done m)
Finishes-after test expected done (aborts more) h g = tt
Finishes-after test expected done (goes more x) h g = chosen-append test done more ∙ rw h g

pub Finishes-bind :
    {A B : Type 0} (test : Action → Bool) (Q : A → Type 0) (expected : B → List Action) (m : Part A)
    (f : A → Part B)
    → Quiet test m
    → Leads Q m
    → ((x : A) → Q x → Finishes test expected (f x))
    → Finishes test expected (m >>= f)
Finishes-bind test Q expected (aborts done) f q l h = tt
Finishes-bind test Q expected (goes done x) f q l h =
    Finishes-after test expected done (f x) q (h x l)

pub Finishes-then :
    {A B : Type 0} (test : Action → Bool) (expected : B → List Action) (m : Part A) (n : Part B)
    → Quiet test m
    → Finishes test expected n
    → Finishes test expected (m >> n)
Finishes-then test expected (aborts done) n q h = tt
Finishes-then test expected (goes done x) n q h = Finishes-after test expected done n q h

pub Leads-all : {A : Type 0} (m : Part A) → Leads (λ x. Unit {0}) m
Leads-all (goes done x) = tt
Leads-all (aborts done) = tt
