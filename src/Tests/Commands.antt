-- ===== src/Tests/Commands.antt =====
-- Command lines: runs, and the theorem on them.
use min_corehdr.Prelude.{◌≡◌, refl, ◌⊎◌, true, ◌||◌, some, List, [], ◌∷◌, Text, codes, text_eq}
use min_corehdr.Errors.{Failure, Result, ok, failed}
use min_corehdr.Cli
use min_corehdr.Cli.{Options, options_init}
use min_corehdr.Cli.Usable.{Usable, parse-Usable}
use min_corehdr.Tests.{always}

-- min-corehdr -vo out.h --btf=vmlinux a.o -- -b.o
argv : List Text
argv =
    codes "-vo"
    ∷ codes "out.h"
    ∷ codes "--btf=vmlinux"
    ∷ codes "a.o"
    ∷ codes "--"
    ∷ codes "-b.o"
    ∷ []

options_of : Result Options → Options
options_of (ok opts) = opts
options_of (failed e) = options_init

unfoldable pub runs : Unit {0}
unfolding text_eq Cli.parse Cli.parse_args Cli.parse_arg Cli.path_or_short Cli.output_or_short
    Cli.short_or_object Cli.letters Cli.output_letter Cli.output_value Cli.btf_value
    Cli.strip_prefix Cli.set_output_path Cli.set_btf_path Cli.require_value Cli.add_object
    Cli.check_options Cli.check_output Cli.has_object
runs = tt

abbrev accepted : Options
accepted = options_of (Cli.parse always argv options_init)

parse_runs :
    (Cli.parse always argv options_init ≡ ok accepted)
    × (accepted.output_path ≡ some (codes "out.h"))
    × (accepted.verbose ≡ 1)
    × (accepted.objects ≡ codes "a.o" ∷ codes "-b.o" ∷ [])
    × (Cli.parse always (codes "--btf=x" ∷ codes "-ox" ∷ codes "a.o" ∷ []) options_init
        ≡ failed Failure.output_is_btf)
unfolding runs argv options_of
parse_runs = (refl, refl, refl, refl, refl)

parse-Usable_example : ((accepted.help || accepted.version) ≡ true) ⊎ Usable accepted
parse-Usable_example = parse-Usable always argv accepted parse_runs.0
