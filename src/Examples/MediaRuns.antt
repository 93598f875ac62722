-- ===== src/Examples/MediaRuns.antt =====
-- Runs of internal/media/media.go: a file that is sealed and opened again, and the first page of an Ogg
-- stream.
use voolo_whatsapp_bridge.Common.{
  ℕ, zero, suc, ◌-◌, ◌*◌, ◌≤◌, ◌≡◌, ◌≢◌, ◌⊎◌, refl, ap, arith, List, [], ◌∷◌, ◌++◌, length,
  length-append, take, drop, some,
}
use voolo_whatsapp_bridge.Protocol.Text.{Text, same_text, all_of}
use voolo_whatsapp_bridge.Media.Handoff.{Library, remove, opened, seal, open_file, in_dir}
use voolo_whatsapp_bridge.Media.Handoff.RoundTrip.{IsLawful, look_at, file_at, open_file-seal}
use voolo_whatsapp_bridge.Media.Ogg.{no_pages, walk, out_of_fuel, ogg_duration_seconds}
use voolo_whatsapp_bridge.Media.Ogg.Bounds.{ogg_duration-floor}

abbrev zeros : ℕ → List ℕ
zeros zero = []
zeros (suc n) = 0 ∷ zeros n

-- A library whose cipher adds a tag of 16 zeros.
abbrev library : Library
library = record {
  clean = λ t. t;
  dir_of = take 1;
  base_of = drop 1;
  join = λ d n. d ++ n;
  hex = λ b. b;
  unhex = some;
  gcm_seal = λ key nonce p. p ++ zeros 16;
  gcm_open = λ key nonce s. some (take (length s - 16) s);
  sha256 = λ p. zeros 32;
}

take-tagged : (p t : List ℕ) (n : ℕ) → n ≡ length p → take n (p ++ t) ≡ p
take-tagged [] t zero e = refl
take-tagged [] t (suc n) e = absurd (omega (arith, e))
take-tagged (x ∷ p) t zero e = absurd (omega (arith, e))
take-tagged (x ∷ p) t (suc n) e = ap (λ l. x ∷ l) (take-tagged p t n (omega (arith, e)))

library-IsLawful : IsLawful library
library-IsLawful = record {
  gcm = λ key nonce p. ap some (
      take-tagged p (zeros 16) (length (p ++ zeros 16) - 16)
        (omega (arith, length-append p (zeros 16))));
  tag = λ key nonce p. length-append p (zeros 16);
  unhex-hex = λ b. refl;
  sum_bytes = λ p. refl;
}

abbrev key : List ℕ
key = zeros 32

abbrev name : List ℕ
name = take 32 (
    b'a' ∷ b'0' ∷ b'a' ∷ b'0' ∷ b'a' ∷ b'0' ∷ b'a' ∷ b'0' ∷ b'a' ∷ b'0' ∷ b'a' ∷ b'0' ∷ b'a' ∷ b'0'
    ∷ b'a' ∷ b'0' ∷ b'b' ∷ b'1' ∷ b'b' ∷ b'1' ∷ b'b' ∷ b'1' ∷ b'b' ∷ b'1' ∷ b'b' ∷ b'1' ∷ b'b'
    ∷ b'1' ∷ b'b' ∷ b'1' ∷ b'b' ∷ b'1' ∷ [])

abbrev dir : Text
dir = b'/' ∷ []

abbrev plain : List ℕ
plain = 1 ∷ 2 ∷ 3 ∷ []

open_file-seal_example :
    (let (s, files) = seal library key (zeros 12) name dir plain [] in
      (file_at s.path files ≡ some (zeros 12 ++ plain ++ zeros 16))
      × (open_file library (look_at s.path files) dir s.path s.key s.sha256 10 files
          ≡ (opened plain, remove s.path files)))
unfolding in_dir seal same_text all_of
open_file-seal_example =
    open_file-seal library library-IsLawful key (zeros 12) name dir plain [] 10 refl refl
      (omega arith) refl

-- One page: a header of 28 bytes and the 19 of OpusHead.
abbrev stream : List ℕ
stream =
    (b'O' ∷ b'g' ∷ b'g' ∷ b'S' ∷ 0 ∷ 2 ∷ 0 ∷ 119 ∷ 1 ∷ 0 ∷ 0 ∷ 0 ∷ 0 ∷ 0 ∷ [])
    ++ (zeros 12 ++ 1 ∷ 19 ∷ b'O' ∷ b'p' ∷ b'u' ∷ b's' ∷ b'H' ∷ b'e' ∷ b'a' ∷ b'd' ∷ zeros 11)

ogg_duration-floor_example :
    (walk (length stream) stream no_pages ≢ out_of_fuel)
    × ((ogg_duration_seconds stream ≡ 0) ⊎ (length stream ≤ 72000 * ogg_duration_seconds stream))
ogg_duration-floor_example = ogg_duration-floor stream
