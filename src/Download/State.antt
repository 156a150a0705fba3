-- ===== src/Download/State.antt =====
-- src/lib/download.c: `struct downloader`, `struct download_i`, their creation and release.
use turris_updater.Base.{
  ℕ, zero, suc, ◌*◌, Bool, true, false, List, [], ◌∷◌, ◌++◌, Option, none, some, Bytes, length,
  get_elem?, leb, ◌==◌, if◌then◌else◌,
}

-- A source of certificates: the marker of the system's one, NULL or a path.
pub data CaSource : Type 0 where
  ca_system : CaSource
  ca_null : CaSource
  ca_path : Bytes → CaSource

-- `struct download_opts`
pub record Opts : Type 0 where
  pub timeout : ℕ
  pub connect_timeout : ℕ
  pub follow_redirect : Bool
  pub ssl_verify : Bool
  pub ocsp : Bool
  pub cacert_file : CaSource
  pub capath : CaSource
  pub crl_file : Option Bytes
  pub pems : Option (List ℕ)

abbrev pub download_opts_def : Opts
download_opts_def = record {
  timeout = 3600;
  connect_timeout = 600;
  follow_redirect = true;
  ssl_verify = true;
  ocsp = true;
  cacert_file = ca_system;
  capath = ca_system;
  crl_file = none;
  pems = none;
}

-- curl_easy_setopt
pub data Setting : Type 0 where
  opt_url : Bytes → Setting
  opt_accept_encoding : Bytes → Setting
  opt_followlocation : Bool → Setting
  opt_timeout : ℕ → Setting
  opt_connecttimeout : ℕ → Setting
  opt_failonerror : Setting
  opt_useragent : Bytes → Setting
  opt_cainfo : Option Bytes → Setting
  opt_capath : Option Bytes → Setting
  opt_crlfile : Bytes → Setting
  opt_ssl_ctx : List ℕ → Setting
  opt_verifystatus : Bool → Setting
  opt_no_verifypeer : Setting
  opt_callbacks : Setting

abbrev pub setting_of {ℓ} : {A : Type ℓ} → (A → Setting) → Option A → List Setting
setting_of f none = []
setting_of f (some a) = f a ∷ []

abbrev pub ca_setting : (Option Bytes → Setting) → CaSource → List Setting
ca_setting f ca_system = []
ca_setting f ca_null = f none ∷ []
ca_setting f (ca_path p) = f (some p) ∷ []

unfoldable pub ssl_settings : Opts → List Setting
ssl_settings o =
    if o.ssl_verify
    then ca_setting opt_cainfo o.cacert_file
      ++ ca_setting opt_capath o.capath
      ++ setting_of opt_crlfile o.crl_file
      ++ setting_of opt_ssl_ctx o.pems
      ++ opt_verifystatus o.ocsp ∷ []
    else opt_no_verifypeer ∷ []

unfoldable pub settings : Bytes → Bytes → Opts → List Setting
unfolding ssl_settings
settings url user_agent o =
    (opt_url url
      ∷ opt_accept_encoding []
      ∷ opt_followlocation o.follow_redirect
      ∷ opt_timeout o.timeout
      ∷ opt_connecttimeout o.connect_timeout
      ∷ opt_failonerror
      ∷ opt_useragent user_agent
      ∷ [])
    ++ ssl_settings o
    ++ opt_callbacks ∷ []

pub record Inst : Type 0 where
  pub done : Bool
  pub success : Bool
  pub output : Bytes
  pub told : List Setting

pub record Downloader : Type 0 where
  pub instances : List ℕ
  pub i_allocated : ℕ
  pub failed : Option ℕ
  -- what stands at the addresses of instances; 0 is NULL
  pub memory : ℕ → Option Inst

pub data Outcome {ℓ} (A : Type ℓ) : Type ℓ where
  returns : A → Outcome A
  dies : Outcome A
  wild : Outcome A
  writing : Outcome A

infixl 2 ◌>>=◌
abbrev pub ◌>>=◌ {ℓ κ} : {A : Type ℓ} {B : Type κ} → Outcome A → (A → Outcome B) → Outcome B
returns a >>= f = f a
dies >>= f = dies
wild >>= f = wild
writing >>= f = writing

abbrev pub downloader_new : Downloader
downloader_new = record { instances = []; i_allocated = 1; failed = none; memory = λ a. none }

abbrev pub put_inst : ℕ → Option Inst → Downloader → Downloader
put_inst a i d = record d { memory = λ b. if a == b then i else d.memory b }

abbrev pub load_inst : ℕ → Downloader → Outcome Inst
load_inst a d = elim (d.memory a) [ none ↦ wild | some i ↦ returns i ]

-- The new instance stands at the address `a`.
unfoldable pub download : ℕ → Bytes → Bytes → Opts → Downloader → Downloader
unfolding settings
download a url user_agent o d =
    record (put_inst a
      (some
        (record { done = false; success = false; output = []; told = settings url user_agent o }))
      d) {
        instances = d.instances ++ a ∷ [];
        i_allocated =
            if leb d.i_allocated (length d.instances) then d.i_allocated * 2 else d.i_allocated;
      }

-- `while (i >= 0 && instances[i] != inst) i--;`, from `n` places on: an index, or none for -1.
unfoldable pub last_index : ℕ → List ℕ → Option ℕ
last_index a [] = none
last_index a (b ∷ bs) = elim (last_index a bs) [
  | some i ↦ some (suc i)
  | none ↦ if b == a then some 0 else none
]

-- memmove of what stands behind.
abbrev pub remove_inst : ℕ → List ℕ → List ℕ
remove_inst i [] = []
remove_inst zero (b ∷ bs) = bs
remove_inst (suc i) (b ∷ bs) = b ∷ remove_inst i bs

unfoldable pub unlist : ℕ → Option ℕ → Downloader → Outcome Downloader
unlist a none d = dies
unlist a (some i) d = returns (put_inst a none (record d { instances = remove_inst i d.instances }))

unfoldable pub download_i_free : ℕ → Downloader → Outcome Downloader
unfolding last_index unlist
download_i_free a d = load_inst a d >>= λ inst. unlist a (last_index a d.instances) d

-- `for (int i = d->i_size - 1; i >= 0; i--)`, with `suc i` for each index.
unfoldable pub flush_from : ℕ → Downloader → Outcome Downloader
unfolding download_i_free
flush_from zero d = returns d
flush_from (suc i) d = elim (get_elem? d.instances i) [
  | none ↦ wild
  | some zero ↦ flush_from i d
  | some (suc a) ↦ download_i_free (suc a) d >>= λ d'. flush_from i d'
]

unfoldable pub downloader_flush : Downloader → Outcome Downloader
unfolding flush_from
downloader_flush d = flush_from (length d.instances) d
