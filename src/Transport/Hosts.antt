-- ===== src/Transport/Hosts.antt =====
-- internal/transport/allowlist.go: the host names that may be reached.
-- A name is a list of code points. strings.ToLower acts on each by itself: as `lower` says on ASCII,
-- and on the rest by Unicode's tables, the argument `lower_other`; net.ParseIP is the argument
-- `parses_as_ip`.
pub mod Allowed
use voolo_whatsapp_bridge.Common.{
  ℕ, ◌+◌, ◌-◌, Bool, true, false, not, ◌&&◌, ◌||◌, List, [], ◌∷◌, Option, none, some, length, map,
  drop, leb, ltb, ◌==◌, if◌then◌else◌,
}

-- web.whatsapp.com
abbrev pub exact_host : List ℕ
exact_host =
    b'w' ∷ b'e' ∷ b'b' ∷ b'.' ∷ b'w' ∷ b'h' ∷ b'a' ∷ b't' ∷ b's' ∷ b'a' ∷ b'p' ∷ b'p' ∷ b'.' ∷ b'c'
    ∷ b'o' ∷ b'm' ∷ []

-- .whatsapp.net and .whatsapp.com
abbrev pub suffix_net : List ℕ
suffix_net =
    b'.' ∷ b'w' ∷ b'h' ∷ b'a' ∷ b't' ∷ b's' ∷ b'a' ∷ b'p' ∷ b'p' ∷ b'.' ∷ b'n' ∷ b'e' ∷ b't' ∷ []

abbrev pub suffix_com : List ℕ
suffix_com =
    b'.' ∷ b'w' ∷ b'h' ∷ b'a' ∷ b't' ∷ b's' ∷ b'a' ∷ b'p' ∷ b'p' ∷ b'.' ∷ b'c' ∷ b'o' ∷ b'm' ∷ []

-- Equality of two texts.
unfoldable pub same : List ℕ → List ℕ → Bool
same [] [] = true
same (a ∷ x) (b ∷ y) = let rest = same x y in if a == b then rest else false
same _ _ = false

-- strings.HasSuffix.
unfoldable pub has_suffix : List ℕ → List ℕ → Bool
has_suffix h s = leb (length s) (length h) && same (drop (length h - length s) h) s

-- strings.TrimSuffix(h, ".").
unfoldable pub trim_dot : List ℕ → List ℕ
trim_dot [] = []
trim_dot (c ∷ []) = if c == b'.' then [] else c ∷ []
trim_dot (c ∷ d ∷ cs) = c ∷ trim_dot (d ∷ cs)

-- The leading characters of a cutset, cut; strings.Trim cuts both ends.
unfoldable pub cut_brackets : List ℕ → List ℕ
cut_brackets [] = []
cut_brackets (c ∷ cs) =
    let rest = cut_brackets cs in if c == b'[' || c == b']' then rest else c ∷ cs

unfoldable pub backwards : List ℕ → List ℕ → List ℕ
backwards acc [] = acc
backwards acc (c ∷ cs) = backwards (c ∷ acc) cs

-- strings.Trim(h, "[]").
unfoldable pub trim_brackets : List ℕ → List ℕ
unfolding cut_brackets backwards
trim_brackets h = backwards [] (cut_brackets (backwards [] (cut_brackets h)))

-- The characters that isHostname lets pass.
abbrev pub host_char : ℕ → Bool
host_char c = (leb b'a' c && leb c b'z') || (leb b'0' c && leb c b'9') || c == b'-' || c == b'.'

-- The loop of isHostname.
unfoldable pub all_host_chars : List ℕ → Bool
all_host_chars [] = true
all_host_chars (c ∷ cs) = let rest = all_host_chars cs in if host_char c then rest else false

-- strings.Contains(h, "..").
unfoldable pub has_dots : List ℕ → Bool
has_dots (c ∷ d ∷ cs) =
    let rest = has_dots (d ∷ cs) in if c == b'.' && d == b'.' then true else rest
has_dots _ = false

-- isHostname.
unfoldable pub is_hostname : List ℕ → Bool
unfolding all_host_chars has_dots
is_hostname h = all_host_chars h && not (has_dots h)

module _ (lower_other : ℕ → ℕ) (parses_as_ip : List ℕ → Bool) where
  -- unicode.ToLower.
  abbrev pub lower : ℕ → ℕ
  lower c = if leb b'A' c && leb c b'Z' then c + 32 else (if ltb c 128 then c else lower_other c)

  -- The name that HostAllowed judges.
  unfoldable pub normal : List ℕ → List ℕ
  unfolding trim_dot
  normal host = map lower (trim_dot host)

  abbrev pub on_suffix : List ℕ → List ℕ → Bool
  on_suffix h s = has_suffix h s && ltb (length s) (length h) && is_hostname h

  -- HostAllowed.
  unfoldable pub host_allowed : List ℕ → Bool
  host_allowed host =
      let h = normal host in
      if leb (length h) 0 || parses_as_ip (trim_brackets h)
      then false
      else (same h exact_host || on_suffix h suffix_net || on_suffix h suffix_com)
