-- ===== src/Media/Handoff.antt =====
-- internal/media/media.go: Seal, InDir, Open, Discard. The cipher, the hash, hexadecimal and filepath are
-- the standard library's and are the fields of Library; the random bytes of Seal are arguments. A
-- folder is the list of its files by path. What Open finds when it looks at a path is a record Look:
-- the answers of Lstat, of openNoFollow with the Stat of the handle, and of the reading.
pub mod RoundTrip
use voolo_whatsapp_bridge.Common.{
  ℕ, ◌+◌, ◌-◌, Bool, true, false, not, ◌&&◌, ◌||◌, List, [], ◌∷◌, ◌++◌, length, take, drop, keep,
  Option, none, some, ltb, ◌==◌, if◌then◌else◌,
}
use voolo_whatsapp_bridge.Protocol.Text.{Text, same_text, all_of, lower_hex}

pub record Library : Type 0 where
  pub clean : Text → Text
  pub dir_of : Text → Text
  pub base_of : Text → Text
  pub join : Text → Text → Text
  pub hex : List ℕ → Text
  pub unhex : Text → Option (List ℕ)
  pub gcm_seal : List ℕ → List ℕ → List ℕ → List ℕ  -- key, nonce, plaintext
  pub gcm_open : List ℕ → List ℕ → List ℕ → Option (List ℕ)  -- key, nonce, sealed
  pub sha256 : List ℕ → List ℕ

-- Overhead: the nonce and the tag.
abbrev pub overhead : ℕ
overhead = 28

-- Sealed.
pub record Sealed : Type 0 where
  pub path : Text
  pub key : Text
  pub sha256 : Text
  pub size_bytes : ℕ

abbrev pub Folder : Type 0
Folder = List (Text × List ℕ)

-- os.Remove.
abbrev pub remove : Text → Folder → Folder
remove path = keep (λ f. not (same_text f.0 path))

-- fileNameRe: ^[0-9a-f]{32}\.bin$
abbrev pub bin : Text
bin = b'.' ∷ b'b' ∷ b'i' ∷ b'n' ∷ []

abbrev pub is_file_name : Text → Bool
is_file_name n = (length n == 36) && (all_of lower_hex (take 32 n) && same_text (drop 32 n) bin)

-- What Open finds at the path.
pub record Handle : Type 0 where
  pub regular : Bool
  pub same_file : Bool
  pub size : ℕ
  pub contents : Option (List ℕ)

pub record Look : Type 0 where
  pub is_regular : Bool  -- Lstat found a regular file
  pub handle : Option Handle

-- ErrInvalid and ErrTooBig.
pub data Opened : Type 0 where
  opened : List ℕ → Opened
  invalid too_big : Opened

module _ (lib : Library) where
  -- Seal, when nothing fails: the file is new, as the flag O_EXCL asks for.
  unfoldable pub seal : List ℕ → List ℕ → List ℕ → Text → List ℕ → Folder → Sealed × Folder
  seal key nonce name dir plaintext files =
      let path = lib.join dir (lib.hex name ++ bin) in
      (
        record {
          path = path;
          key = lib.hex key;
          sha256 = lib.hex (lib.sha256 plaintext);
          size_bytes = length plaintext;
        },
        (path, nonce ++ lib.gcm_seal key nonce plaintext) ∷ files,
      )

  -- InDir.
  unfoldable pub in_dir : Text → Text → Bool
  in_dir dir path =
      same_text (lib.clean (lib.dir_of path)) (lib.clean dir) && is_file_name (lib.base_of path)

  -- Open from the decryption on.
  abbrev pub checked_sum : Option (List ℕ) → List ℕ → Opened
  checked_sum none want = invalid
  checked_sum (some plain) want =
      if same_text (lib.sha256 plain) want then opened plain else invalid

  abbrev pub decrypted : List ℕ → List ℕ → ℕ → Option (List ℕ) → Opened
  decrypted key want max_bytes none = invalid
  decrypted key want max_bytes (some contents) =
      let bytes = take (max_bytes + overhead + 1) contents in
      if ltb (max_bytes + overhead) (length bytes)
      then too_big
      else (if ltb (length bytes) overhead
          then invalid
          else checked_sum (lib.gcm_open key (take 12 bytes) (drop 12 bytes)) want)

  -- A key or a hash: 32 bytes.
  abbrev pub with_keys : Option (List ℕ) → Option (List ℕ) → ℕ → Option (List ℕ) → Opened
  with_keys (some key) (some want) max_bytes contents =
      if length key == 32 && length want == 32
      then decrypted key want max_bytes contents
      else invalid
  with_keys key want max_bytes contents = invalid

  abbrev pub with_handle : Text → Text → ℕ → Option Handle → Opened
  with_handle key_hex sha256_hex max_bytes none = invalid
  with_handle key_hex sha256_hex max_bytes (some h) =
      if not h.regular || (not h.same_file || ltb h.size overhead)
      then invalid
      else (if ltb max_bytes (h.size - overhead)
          then too_big
          else with_keys (lib.unhex key_hex) (lib.unhex sha256_hex) max_bytes h.contents)

  -- Open: what it answers, and the folder.
  unfoldable pub open_file : Look → Text → Text → Text → Text → ℕ → Folder → Opened × Folder
  unfolding in_dir
  open_file look dir path key_hex sha256_hex max_bytes files =
      if not (in_dir dir path) || not look.is_regular
      then (invalid, files)
      else (with_handle key_hex sha256_hex max_bytes look.handle, remove path files)

  -- Discard.
  unfoldable pub discard : Text → Text → Folder → Folder
  unfolding in_dir
  discard dir path files = if in_dir dir path then remove path files else files
