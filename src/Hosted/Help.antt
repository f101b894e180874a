-- ===== src/Hosted/Help.antt =====
-- The help and welcome screens of dug_os.c. A padded `%s` of a literal is written out.
use dug_os.Common.{List, [], ◌∷◌}
use dug_os.Hosted.{Print, text}

unfoldable pub host_help : List Print
host_help =
    text "\n"
    ∷ text "  +------------------------------------------------------------+\n"
    ∷ text "  |              DugOS v"
    ∷ text "1.0"
    ∷ text "  --  Command Reference            |\n"
    ∷ text "  +------------------------------------------------------------+\n"
    ∷ text "\n"
    ∷ text "  [ General ]\n"
    ∷ text "  "
    ∷ text "  help                "
    ∷ text "  "
    ∷ text "Show this help screen"
    ∷ text "\n"
    ∷ text "  "
    ∷ text "  cls / clear         "
    ∷ text "  "
    ∷ text "Clear the terminal screen"
    ∷ text "\n"
    ∷ text "  "
    ∷ text "  pwd                 "
    ∷ text "  "
    ∷ text "Print current working directory"
    ∷ text "\n"
    ∷ text "  "
    ∷ text "  date                "
    ∷ text "  "
    ∷ text "Show current date and time"
    ∷ text "\n"
    ∷ text "  "
    ∷ text "  whoami              "
    ∷ text "  "
    ∷ text "Show current user"
    ∷ text "\n"
    ∷ text "\n"
    ∷ text "  [ File Operations ]\n"
    ∷ text "  "
    ∷ text "  fwrite <file>       "
    ∷ text "  "
    ∷ text "Create or overwrite a file"
    ∷ text "\n"
    ∷ text "  "
    ∷ text "  fread  <file>       "
    ∷ text "  "
    ∷ text "Read and display a file"
    ∷ text "\n"
    ∷ text "  "
    ∷ text "  cat    <file>       "
    ∷ text "  "
    ∷ text "Same as fread"
    ∷ text "\n"
    ∷ text "  "
    ∷ text "  fedit  <file>       "
    ∷ text "  "
    ∷ text "Append content to a file"
    ∷ text "\n"
    ∷ text "  "
    ∷ text "  fdel   <file>       "
    ∷ text "  "
    ∷ text "Delete a file"
    ∷ text "\n"
    ∷ text "  "
    ∷ text "  rename <old> <new>  "
    ∷ text "  "
    ∷ text "Rename a file"
    ∷ text "\n"
    ∷ text "  "
    ∷ text "  copy   <src> <dst>  "
    ∷ text "  "
    ∷ text "Copy a file"
    ∷ text "\n"
    ∷ text "\n"
    ∷ text "  [ Directory Operations ]\n"
    ∷ text "  "
    ∷ text "  mkdir  <dir>        "
    ∷ text "  "
    ∷ text "Create a new directory"
    ∷ text "\n"
    ∷ text "  "
    ∷ text "  cd     <dir>        "
    ∷ text "  "
    ∷ text "Change current directory"
    ∷ text "\n"
    ∷ text "  "
    ∷ text "  rmdir  <dir>        "
    ∷ text "  "
    ∷ text "Delete an empty directory"
    ∷ text "\n"
    ∷ text "  "
    ∷ text "  ls / dir            "
    ∷ text "  "
    ∷ text "List files in current directory"
    ∷ text "\n"
    ∷ text "\n"
    ∷ text "  [ System ]\n"
    ∷ text "  "
    ∷ text "  shutdown            "
    ∷ text "  "
    ∷ text "Shut down DugOS"
    ∷ text "\n"
    ∷ text "\n"
    ∷ text "  +------------------------------------------------------------+\n"
    ∷ text "\n"
    ∷ []

-- What `welcome_screen` prints behind the clearing of the terminal.
unfoldable pub welcome_screen : List Print
welcome_screen =
    text "\n"
    ∷ text "  +=================================================================+\n"
    ∷ text "  |                                                                 |\n"
    ∷ text "  |    ____  _   _   ____   ___   ____                             |\n"
    ∷ text "  |   |  _ \\| | | | / ___| / _ \\ / ___|                            |\n"
    ∷ text "  |   | | | | | | || |  _ | | | |\\___ \\                            |\n"
    ∷ text "  |   | |_| | |_| || |_| || |_| | ___) |                           |\n"
    ∷ text "  |   |____/ \\___/  \\____| \\___/ |____/                             |\n"
    ∷ text "  |                                                                 |\n"
    ∷ text "  |          O P E R A T I N G     S Y S T E M                    |\n"
    ∷ text "  |                      v e r s i o n  "
    ∷ text "1.0 "
    ∷ text "                       |\n"
    ∷ text "  |                                                                 |\n"
    ∷ text "  |   - - - - - - - - - - - - - - - - - - - - - - - - - - - - -   |\n"
    ∷ text "  |      Built on MINIX 3.1.0 kernel  (Appendix B, line 07100)    |\n"
    ∷ text "  |   - - - - - - - - - - - - - - - - - - - - - - - - - - - - -   |\n"
    ∷ text "  |                                                                 |\n"
    ∷ text "  |                  [ Type  'help'  to begin ]                    |\n"
    ∷ text "  |                                                                 |\n"
    ∷ text "  +=================================================================+\n"
    ∷ text "\n"
    ∷ text "  >> Welcome, "
    ∷ text "dug"
    ∷ text ". DugOS is ready.\n\n"
    ∷ []
