-- ===== src/Cli/Texts.antt =====
-- What --help and --version print (src/cli.c). The version and the revision are macros of the build.
use min_corehdr.Prelude.{Option, none, some, ◌++◌, if◌then◌else◌, Text, codes, is_empty}

unfoldable pub program_name : Option Text → Text
program_name none = codes "min-corehdr"
program_name (some argv0) = if is_empty argv0 then codes "min-corehdr" else argv0

unfoldable pub usage_text : Text → Text
usage_text prog =
    codes "Usage:\n  "
    ++ (prog
        ++ (codes " [OPTIONS] --btf FILE OBJECT...\n  "
            ++ (prog ++ (codes " --help\n  " ++ (prog ++ codes " --version\n")))))

unfoldable pub options_text : Text
options_text =
    codes "\nGlobal options:\n"
    ++ (codes "  -h, --help       Show this help and exit\n"
        ++ (codes "  -V, --version    Show version information and exit\n"
            ++ (codes "  -v, --verbose    Increase stderr diagnostics; repeatable\n"
                ++ (codes "  -q, --quiet      Suppress non-error diagnostics\n"
                    ++ (codes "\nMain options:\n"
                        ++ (codes
                              "      --btf FILE   Base BTF file used as the kernel type source\n"
                            ++ (codes "  -o, --output FILE\n"
                                ++ (codes "                  Write the generated header to FILE\n"
                                    ++ (codes "      --expand-pointers\n"
                                        ++ (codes
                                              "                  Also include pointee types in dependency closure\n"
                                            ++ (codes
                                                  "      --explain   Print a requirement witness to stderr\n"
                                                ++ codes
                                                    "      --stats      Print a short generation summary to stderr\n")))))))))))

unfoldable pub print_help : Option Text → Text
print_help argv0 =
    codes
      "min-corehdr - generate a compile-complete minimal local CO-RE header from .bpf.o inputs\n"
    ++ (usage_text (program_name argv0)
        ++ (options_text
            ++ (codes "\nExample:\n  "
                ++ (program_name argv0
                    ++ codes " --btf /sys/kernel/btf/vmlinux -o vmlinux.h foo.bpf.o\n"))))

unfoldable pub print_version : Text → Text → Text → Text
print_version version revision libbpf =
    codes "min-corehdr "
    ++ (version ++ (codes "\ngit " ++ (revision ++ (codes "\nlibbpf " ++ (libbpf ++ codes "\n")))))
