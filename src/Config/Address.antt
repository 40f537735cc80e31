-- ===== src/Config/Address.antt =====
-- `Host` is what the process of config.go finds around it: the environment, the data directory, the
-- number of processors, the names of ports and of time zones. checkWritableDir and checkListenAddr
-- ask it.
use homesink.Base.{
  ℕ, Bool, true, false, not, ◌&&◌, ◌||◌, [], ◌∷◌, Option, none, some, Str, ◌==◌, if◌then◌else◌,
}
use homesink.Library.Sanitize.{contains_rune}

pub data DirState : Type 0 where
  missing unreadable not_directory not_writable writable : DirState

pub record Host : Type 0 where
  pub env : Str → Str
  pub hostname : Option Str
  pub dir : Str → DirState
  pub known_port : Str → Bool
  pub is_ip : Str → Bool
  pub num_cpu : ℕ
  pub known_location : Str → Bool

-- checkWritableDir.
abbrev pub check_writable_dir : DirState → Bool
check_writable_dir writable = true
check_writable_dir s = false

-- net.SplitHostPort: the parts around the first rune that passes a test, and around the last colon.
unfoldable pub cut_first : ℕ → Str → Option (Str × Str)
cut_first c [] = none
cut_first c (r ∷ s) = elim (cut_first c s) [
  | none ↦ if r == c then some ([], s) else none
  | some (a, b) ↦ if r == c then some ([], s) else some (r ∷ a, b)
]

unfoldable pub cut_last_colon : Str → Option (Str × Str)
cut_last_colon [] = none
cut_last_colon (r ∷ s) = elim (cut_last_colon s) [
  | none ↦ if r == 58 then some ([], s) else none
  | some (a, b) ↦ some (r ∷ a, b)
]

-- "[host]:port", of which `rest` follows the first "]": one colon, and neither bracket again.
abbrev bracketed : Str → Str → Option (Str × Str)
bracketed host [] = none
bracketed host (r ∷ port) =
    if (r == 58)
      && not (
          contains_rune 58 port
          || (contains_rune 91 host || (contains_rune 91 port || contains_rune 93 port)))
    then some (host, port)
    else none

abbrev after_bracket : Option (Str × Str) → Option (Str × Str)
after_bracket none = none
after_bracket (some (host, rest)) = bracketed host rest

-- "host:port", with no colon in the host and no bracket in either.
abbrev plain : Option (Str × Str) → Option (Str × Str)
plain none = none
plain (some (host, port)) =
    let brackets =
      (contains_rune 91 host || contains_rune 93 host)
      || (contains_rune 91 port || contains_rune 93 port) in
    if contains_rune 58 host || brackets then none else some (host, port)

unfoldable pub split_host_port : Str → Option (Str × Str)
unfolding contains_rune cut_first cut_last_colon
split_host_port [] = none
split_host_port (r ∷ s) =
    if r == 91 then after_bracket (cut_first 93 s) else plain (cut_last_colon (r ∷ s))

-- checkListenAddr.
abbrev check_host : (Str → Bool) → Str → Bool
check_host is_ip [] = true
check_host is_ip (r ∷ host) =
    is_ip (r ∷ host) || not (contains_rune 32 (r ∷ host) || contains_rune 9 (r ∷ host))

abbrev check_parts : Host → Option (Str × Str) → Bool
check_parts h none = false
check_parts h (some (host, [])) = false
check_parts h (some (host, r ∷ port)) = h.known_port (r ∷ port) && check_host h.is_ip host

unfoldable pub check_listen_addr : Host → Str → Bool
unfolding split_host_port contains_rune
check_listen_addr h addr = check_parts h (split_host_port addr)
