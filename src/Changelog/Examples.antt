-- ===== src/Changelog/Examples.antt =====
-- Runs of src/lib/changelog.c.
use turris_updater.Base.{◌≡◌, refl, [], none, some, codes}
use turris_updater.Changelog.File.{log_lines, changelog_package, changelog_scriptfail}
use turris_updater.Changelog.Lines.{IsReported, changelog_scriptfail-IsReported}

changelog_scriptfail-IsReported_example :
    IsReported [] (codes "pkg") (codes "postinst") (codes "1") (codes "a\nb") (
      changelog_scriptfail
        (codes "pkg")
        (codes "postinst")
        (codes "1")
        (codes "a\nb")
        (record { f = some [] }))
changelog_scriptfail-IsReported_example =
    changelog_scriptfail-IsReported [] (codes "pkg") (codes "postinst") (codes "1") (codes "a\nb")

two_lines : log_lines 9 (codes "a\nb\n") ≡ some (codes "|a\n|b\n")
unfolding log_lines
two_lines = refl

package_logged :
    (changelog_package (codes "x") none (some (codes "2")) (record { f = some [] })).f
    ≡ some (codes "PKG\tx\t\t2\n")
unfolding changelog_package
package_logged = refl
