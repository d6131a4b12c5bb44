-- ===== src/Families/Tables.antt =====
-- tab_systeme_err of log_functions.h, the table of the system's own errors.
use Prim.Native.String.{String}
use comm_system.Prelude.{List, [], ◌∷◌, ◌++◌, ℤ, pos, negsuc, codes}
use comm_system.Families.{FamilyError}

abbrev pub error_entry : ℤ → String → String → FamilyError
error_entry numero label msg = record { numero = numero; label = codes label; msg = codes msg }

-- The entries up to ERR_LSTAT.
abbrev pub file_errors : List FamilyError
file_errors =
    error_entry (pos 0) "SUCCES" "Pas d'error"
    ∷ error_entry (pos 1) "FAILURE" "Une error est survenue"
    ∷ error_entry (pos 2) "EVNT" "Evennement survenu"
    ∷ error_entry (pos 3) "ERR_PTHREAD_KEY_CREATE" "Error a la creation des pthread_keys"
    ∷ error_entry (pos 4) "ERR_MALLOC" "malloc impossible"
    ∷ error_entry (pos 5) "ERR_SIGACTION" "sigaction impossible"
    ∷ error_entry (pos 6) "ERR_PTHREAD_ONCE" "pthread_once impossible"
    ∷ error_entry (pos 7) "ERR_FICHIER_LOG" "impossible d'acceder au fichier de log"
    ∷ error_entry (pos 8) "ERR_GETHOSTBYNAME" "gethostbyname impossible"
    ∷ error_entry (pos 9) "ERR_MMAP" "mmap impossible"
    ∷ error_entry (pos 10) "ERR_SOCKET" "socket impossible"
    ∷ error_entry (pos 11) "ERR_BIND" "bind impossible"
    ∷ error_entry (pos 12) "ERR_CONNECT" "connect impossible"
    ∷ error_entry (pos 13) "ERR_LISTEN" "listen impossible"
    ∷ error_entry (pos 14) "ERR_ACCEPT" "accept impossible"
    ∷ error_entry (pos 15) "ERR_RRESVPORT" "rresvport impossible"
    ∷ error_entry (pos 16) "ERR_GETHOSTNAME" "gethostname impossible"
    ∷ error_entry (pos 17) "ERR_GETSOCKNAME" "getsockname impossible"
    ∷ error_entry (pos 18) "ERR_IOCTL" "ioctl impossible"
    ∷ error_entry (pos 19) "ERR_UTIME" "utime impossible"
    ∷ error_entry (pos 20) "ERR_XDR" "Un appel XDR a echoue"
    ∷ error_entry (pos 21) "ERR_CHMOD" "chmod impossible"
    ∷ error_entry (pos 22) "ERR_SEND" "send impossible"
    ∷ error_entry (pos 23) "ERR_GETHOSTBYADDR" "gethostbyaddr impossible"
    ∷ error_entry (pos 24) "ERR_PREAD" "pread impossible"
    ∷ error_entry (pos 25) "ERR_PWRITE" "pwrite impossible"
    ∷ error_entry (pos 26) "ERR_STAT" "stat impossible"
    ∷ error_entry (pos 27) "ERR_GETPEERNAME" "getpeername impossible"
    ∷ error_entry (pos 28) "ERR_FORK" "fork impossible"
    ∷ error_entry (pos 29) "ERR_GETSERVBYNAME" "getservbyname impossible"
    ∷ error_entry (pos 30) "ERR_MUNMAP" "munmap impossible"
    ∷ error_entry (pos 31) "ERR_STATVFS" "statvfs impossible"
    ∷ error_entry (pos 32) "ERR_OPENDIR" "opendir impossible"
    ∷ error_entry (pos 33) "ERR_READDIR" "readdir impossible"
    ∷ error_entry (pos 34) "ERR_CLOSEDIR" "closedir impossible"
    ∷ error_entry (pos 35) "ERR_LSTAT" "lstat impossible"
    ∷ []

-- The other ones, and the entry that ends the table.
abbrev pub other_errors : List FamilyError
other_errors =
    error_entry (pos 36) "ERR_GETWD" "getwd impossible"
    ∷ error_entry (pos 37) "ERR_CHDIR" "chdir impossible"
    ∷ error_entry (pos 38) "ERR_CHOWN" "chown impossible"
    ∷ error_entry (pos 39) "ERR_MKDIR" "mkdir impossible"
    ∷ error_entry (pos 40) "ERR_OPEN" "open impossible"
    ∷ error_entry (pos 41) "ERR_READ" "read impossible"
    ∷ error_entry (pos 42) "ERR_WRITE" "write impossible"
    ∷ error_entry (pos 43) "ERR_UTIMES" "utimes impossible"
    ∷ error_entry (pos 44) "ERR_READLINK" "readlink impossible"
    ∷ error_entry (pos 45) "ERR_SYMLINK" "symlink impossible"
    ∷ error_entry (pos 46) "ERR_SYSTEM" "system impossible"
    ∷ error_entry (pos 47) "ERR_POPEN" "popen impossible"
    ∷ error_entry (pos 48) "ERR_LSEEK" "lseek impossible"
    ∷ error_entry (pos 49) "ERR_PTHREAD_CREATE" "pthread_create impossible"
    ∷ error_entry (pos 50) "ERR_RECV" "recv impossible"
    ∷ error_entry (pos 51) "ERR_FOPEN" "fopen impossible"
    ∷ error_entry (pos 52) "ERR_GETCWD" "getcwd impossible"
    ∷ error_entry (pos 53) "ERR_SETUID" "setuid impossible"
    ∷ error_entry (pos 54) "ERR_RENAME" "rename impossible"
    ∷ error_entry (pos 55) "ERR_UNLINK" "unlink impossible"
    ∷ error_entry (pos 56) "ERR_SELECT" "select impossible"
    ∷ error_entry (pos 57) "ERR_WAIT" "wait impossible"
    ∷ error_entry (pos 58) "ERR_SETSID" "setsid impossible"
    ∷ error_entry (pos 59) "ERR_SETGID" "setgid impossible"
    ∷ error_entry (pos 60) "ERR_GETGROUPS" "getgroups impossible"
    ∷ error_entry (pos 61) "ERR_SETGROUPS" "setgroups impossible"
    ∷ error_entry (pos 62) "ERR_UMASK" "umask impossible"
    ∷ error_entry (pos 63) "ERR_CREAT" "creat impossible"
    ∷ error_entry (pos 64) "ERR_SETSOCKOPT" "setsockopt impossible"
    ∷ error_entry (pos 65) "ERR_DIRECTIO" "appel a directio impossible"
    ∷ error_entry (pos 66) "ERR_GETRLIMIT" "appel a getrlimit impossible"
    ∷ error_entry (pos 67) "ERR_SETRLIMIT" "appel a setrlimit"
    ∷ error_entry (pos 68) "ERR_TRUNCATE" "appel a truncate impossible"
    ∷ error_entry (pos 69) "ERR_PTHREAD_MUTEX_INIT" "init d'un mutex"
    ∷ error_entry (pos 70) "ERR_PTHREAD_COND_INIT" "init d'une variable de condition"
    ∷ error_entry (pos 71) "ERR_FCNTL" "call to fcntl is impossible"
    ∷ error_entry (negsuc 0) "ERR_NULL" ""
    ∷ []

abbrev pub tab_systeme_err : List FamilyError
tab_systeme_err = file_errors ++ other_errors
