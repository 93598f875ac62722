-- ===== src/Media/Handoff/RoundTrip.antt =====
-- Seal and Open of internal/media/media.go are inverse, and a file that was looked at is gone.
use voolo_whatsapp_bridge.Common.{
  ℕ, zero, suc, ◌+◌, ◌-◌, ◌≤◌, ◌≡◌, refl, sym, ap, ◌∙◌, subst, Bool, true, false, not, ◌&&◌, ◌||◌,
  List, [], ◌∷◌, ◌++◌, length, take, drop, Option, none, some, ltb, ◌==◌, arith, length-append,
  by_test, by_test_true, by_test_false, All, if◌then◌else◌,
}
use voolo_whatsapp_bridge.Protocol.Text.{Text, same_text}
use voolo_whatsapp_bridge.Media.Handoff.{
  Library, overhead, Folder, remove, bin, Look, Opened, opened, invalid, too_big, seal, in_dir,
  checked_sum, decrypted, with_keys, with_handle, open_file,
}

same_text_refl : (t : Text) → same_text t t ≡ true
unfolding same_text
same_text_refl [] = refl
same_text_refl (c ∷ cs) = ground (arith, same_text_refl cs)

take-append : (xs ys : List ℕ) (n : ℕ) → length xs ≡ n → take n (xs ++ ys) ≡ xs
take-append [] ys zero e = refl
take-append [] ys (suc n) e = absurd (omega (arith, e))
take-append (x ∷ xs) ys zero e = absurd (omega (arith, e))
take-append (x ∷ xs) ys (suc n) e = ap (λ l. x ∷ l) (take-append xs ys n (omega (arith, e)))

drop-append : (xs ys : List ℕ) (n : ℕ) → length xs ≡ n → drop n (xs ++ ys) ≡ ys
drop-append [] ys zero e = refl
drop-append [] ys (suc n) e = absurd (omega (arith, e))
drop-append (x ∷ xs) ys zero e = absurd (omega (arith, e))
drop-append (x ∷ xs) ys (suc n) e = drop-append xs ys n (omega (arith, e))

take-all : (n : ℕ) (xs : List ℕ) → length xs ≤ n → take n xs ≡ xs
take-all zero [] h = refl
take-all zero (x ∷ xs) h = absurd (omega (arith, h))
take-all (suc n) [] h = refl
take-all (suc n) (x ∷ xs) h = ap (λ l. x ∷ l) (take-all n xs (omega (arith, h)))

-- What the code relies on of AES-GCM, SHA-256 and hexadecimal.
pub record IsLawful (lib : Library) : Type 0 where
  pub gcm : (key nonce p : List ℕ) → lib.gcm_open key nonce (lib.gcm_seal key nonce p) ≡ some p
  pub tag : (key nonce p : List ℕ) → length (lib.gcm_seal key nonce p) ≡ length p + 16
  pub unhex-hex : (bytes : List ℕ) → lib.unhex (lib.hex bytes) ≡ some bytes
  pub sum_bytes : (p : List ℕ) → length (lib.sha256 p) ≡ 32

-- The look at an untouched file.
abbrev pub plain_look : List ℕ → Look
plain_look contents = record {
  is_regular = true;
  handle = some (record {
    regular = true;
    same_file = true;
    size = length contents;
    contents = some contents;
  });
}

-- What stands at a path, and the look at it when nothing else touches the folder.
unfoldable pub file_at : Text → Folder → Option (List ℕ)
file_at path [] = none
file_at path ((q, contents) ∷ files) =
    let rest = file_at path files in if same_text q path then some contents else rest

abbrev pub look_of : Option (List ℕ) → Look
look_of none = record { is_regular = false; handle = none }
look_of (some contents) = plain_look contents

abbrev pub look_at : Text → Folder → Look
look_at path files = look_of (file_at path files)

-- The file that was put first is the one that stands there.
file_at-first :
    (path : Text) (contents : List ℕ) (files : Folder)
    → file_at path ((path, contents) ∷ files) ≡ some contents
unfolding file_at
file_at-first path contents files = by_test_true (same_text path path) _ _ (same_text_refl path)

look_at-first :
    (path : Text) (contents : List ℕ) (files : Folder)
    → look_at path ((path, contents) ∷ files) ≡ plain_look contents
look_at-first path contents files = ap look_of (file_at-first path contents files)

module _ (lib : Library) (laws : IsLawful lib) where
  -- The contents of a sealed file, read and decrypted.
  decrypted-sealed :
      (key nonce p : List ℕ) (max_bytes : ℕ)
      → length nonce ≡ 12
      → length p ≤ max_bytes
      → decrypted lib key (lib.sha256 p) max_bytes (some (nonce ++ lib.gcm_seal key nonce p))
        ≡ opened p
  decrypted-sealed key nonce p max_bytes n h =
      ap from_bytes whole
      ∙ by_test_false (ltb (max_bytes + overhead) (length sealed)) _ _ (ground (arith, size, h))
      ∙ by_test_false (ltb (length sealed) overhead) _ _ (ground (arith, size))
      ∙ ap (λ b. checked_sum lib (lib.gcm_open key b (drop 12 sealed)) (lib.sha256 p))
          (take-append nonce _ 12 n)
      ∙ ap (λ b. checked_sum lib (lib.gcm_open key nonce b) (lib.sha256 p))
          (drop-append nonce _ 12 n)
      ∙ ap (λ o. checked_sum lib o (lib.sha256 p)) (laws.gcm key nonce p)
      ∙ by_test_true (same_text (lib.sha256 p) (lib.sha256 p)) _ _ (same_text_refl (lib.sha256 p))
    where
      sealed : List ℕ
      sealed = nonce ++ lib.gcm_seal key nonce p

      size : length sealed ≡ length p + overhead
      size = omega (arith, length-append nonce (lib.gcm_seal key nonce p), laws.tag key nonce p, n)

      whole : take (max_bytes + overhead + 1) sealed ≡ sealed
      whole = take-all (max_bytes + overhead + 1) sealed (omega (arith, size, h))

      from_bytes : List ℕ → Opened
      from_bytes bytes =
          if ltb (max_bytes + overhead) (length bytes)
          then too_big
          else (if ltb (length bytes) overhead
              then invalid
              else checked_sum lib (lib.gcm_open key (take 12 bytes) (drop 12 bytes))
                  (lib.sha256 p))

  with_handle-sealed :
      (key nonce p : List ℕ) (max_bytes : ℕ)
      → length key ≡ 32
      → length nonce ≡ 12
      → length p ≤ max_bytes
      → with_handle lib
          (lib.hex key)
          (lib.hex (lib.sha256 p))
          max_bytes
          (plain_look (nonce ++ lib.gcm_seal key nonce p)).handle
        ≡ opened p
  with_handle-sealed key nonce p max_bytes k n h =
      by_test_false (ltb (length sealed) overhead) _ _ (ground (arith, size))
      ∙ by_test_false (ltb max_bytes (length sealed - overhead)) _ _ (ground (arith, size, h))
      ∙ ap (λ o. with_keys lib o (lib.unhex (lib.hex (lib.sha256 p))) max_bytes (some sealed))
          (laws.unhex-hex key)
      ∙ ap (λ o. with_keys lib (some key) o max_bytes (some sealed)) (laws.unhex-hex (lib.sha256 p))
      ∙ by_test_true (length key == 32 && length (lib.sha256 p) == 32) _ _
          (ground (arith, k, laws.sum_bytes p))
      ∙ decrypted-sealed key nonce p max_bytes n h
    where
      sealed : List ℕ
      sealed = nonce ++ lib.gcm_seal key nonce p

      size : length sealed ≡ length p + overhead
      size = omega (arith, length-append nonce (lib.gcm_seal key nonce p), laws.tag key nonce p, n)

  -- Open with the key and the hash that Seal answered reads the plaintext back out of what Seal left in
  -- the folder, if the plaintext is within the limit and nothing else touched the folder; the file, which
  -- holds the nonce and the ciphertext, is deleted.
  pub open_file-seal :
      (key nonce name : List ℕ) (dir : Text) (p : List ℕ) (files : Folder) (max_bytes : ℕ)
      → length key ≡ 32
      → length nonce ≡ 12
      → length p ≤ max_bytes
      → in_dir lib dir (seal lib key nonce name dir p files).0.path ≡ true
      → (let (s, files') = seal lib key nonce name dir p files in
          (file_at s.path files' ≡ some (nonce ++ lib.gcm_seal key nonce p))
          × (open_file lib (look_at s.path files') dir s.path s.key s.sha256 max_bytes files'
              ≡ (opened p, remove s.path files')))
  unfolding seal open_file
  open_file-seal key nonce name dir p files max_bytes k n h d = (
    file_at-first path (nonce ++ lib.gcm_seal key nonce p) files,
    rw (look_at-first path (nonce ++ lib.gcm_seal key nonce p) files) (
        by_test_false (not (in_dir lib dir path) || false) _ _ (ground (arith, d))
        ∙ ap (λ o. (o, remove path ((path, nonce ++ lib.gcm_seal key nonce p) ∷ files)))
            (with_handle-sealed key nonce p max_bytes k n h)),
  )
    where
      path : Text
      path = lib.join dir (lib.hex name ++ bin)

-- No file of this path is left.
abbrev pub Gone : Text → Folder → Type 0
Gone path files = All (λ f. same_text f.0 path ≡ false) files

of_not : (b : Bool) → not b ≡ true → b ≡ false
of_not true e = ground arith
of_not false e = refl

remove-Gone : (path : Text) (files : Folder) → Gone path (remove path files)
remove-Gone path [] = tt
remove-Gone path ((q, contents) ∷ files) =
    by_test (λ (fs : Folder). Gone path fs) (not (same_text q path))
      (λ e. (of_not (same_text q path) e, remove-Gone path files)) (λ e. remove-Gone path files)

-- However Open ends, a regular file with a hand-off name in the folder is gone once it was looked at.
pub open_file-deletes :
    (lib : Library) (look : Look) (dir path key_hex sha256_hex : Text) (max_bytes : ℕ)
    (files : Folder)
    → in_dir lib dir path ≡ true
    → look.is_regular ≡ true
    → Gone path (open_file lib look dir path key_hex sha256_hex max_bytes files).1
unfolding open_file
open_file-deletes lib look dir path key_hex sha256_hex max_bytes files d r =
    subst (λ (o : Opened × Folder). Gone path o.1)
      (sym (
        by_test_false (not (in_dir lib dir path) || not look.is_regular) _ _
          (ground (arith, d, r))))
      (remove-Gone path files)
