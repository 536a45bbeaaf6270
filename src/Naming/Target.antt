-- ===== src/Naming/Target.antt =====
-- pkg/naming/remotetarget.go: the name that a target gets from its repositories and branches.
use Prim.Native.String.{◌++◌ as str_append}
use Prim.Native.Char.{code, Char}
use syngit.Common.{String, Bool, ◌&&◌, ◌==◌, string_eq, nat_beq, codes, if◌then◌else◌}
use syngit.Common.Errors.{Result, ok, ◌>>=◌}
use syngit.Naming.{is_allowed, is_valid}

abbrev pub default_fork_prefix : String
default_fork_prefix = "fork"

abbrev keep_char : Char → Char
keep_char c = if is_allowed (code c) then c else "-"

sanitize_chars : (Char → Char) → String → String
sanitize_chars to_lower String.[] = ""
sanitize_chars to_lower (String.◌∷◌ c s) =
    String.◌∷◌ (keep_char (to_lower c)) (sanitize_chars to_lower s)

-- `SoftSanitize`, of a native text.
pub soft_sanitize_text : (Char → Char) → String → String
unfolding sanitize_chars is_valid
soft_sanitize_text to_lower s = if is_valid (codes s) then s else sanitize_chars to_lower s

-- `strings.ToLower`
pub lower : (Char → Char) → String → String
lower to_lower String.[] = ""
lower to_lower (String.◌∷◌ c s) = String.◌∷◌ (to_lower c) (lower to_lower s)

is_git : Char → Char → Char → Char → Bool
is_git a b c d =
    nat_beq (code a) 46 && (nat_beq (code b) 103 && (nat_beq (code c) 105 && nat_beq (code d) 116))

-- `strings.ReplaceAll(s, ".git", "")`
pub remove_git : String → String
unfolding is_git
remove_git (String.◌∷◌ a (String.◌∷◌ b (String.◌∷◌ c (String.◌∷◌ d s)))) =
    let shorter = remove_git s in
    let rest = remove_git (String.◌∷◌ b (String.◌∷◌ c (String.◌∷◌ d s))) in
    if is_git a b c d then shorter else String.◌∷◌ a rest
remove_git s = s

repo_name : (Char → Char) → String → String
unfolding soft_sanitize_text lower remove_git
repo_name to_lower path = lower to_lower (remove_git (soft_sanitize_text to_lower path))

abbrev drop_first : String → String
drop_first String.[] = ""
drop_first (String.◌∷◌ c s) = s

-- `RemoteTargetName`; `path_of` is `url.Parse`, of which the path is read. A sanitized path has only
-- characters of one byte.
unfoldable pub remote_target_name :
    (String → Result String) → (Char → Char) → String → String → String → String → Result String
unfolding repo_name lower
remote_target_name path_of to_lower upstream_repo upstream_branch target_repo target_branch =
    path_of upstream_repo >>= λ upstream_path.
    (if target_repo == ""
      then ok default_fork_prefix
      else path_of target_repo >>= λ target_path. ok (repo_name to_lower target_path))
    >>= λ target_repo_name. ok (
        str_append (drop_first (repo_name to_lower upstream_path)) (
          str_append "-" (
            str_append (lower to_lower upstream_branch)
              (str_append target_repo_name (str_append "-" (lower to_lower target_branch))))))
