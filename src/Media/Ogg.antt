-- ===== src/Media/Ogg.antt =====
-- internal/media/media.go, OggDurationSeconds. A stream is the list of its bytes; the loop over its
-- pages is on fuel, one for each byte, of which every page takes 27 or more. The sum of granules is
-- a uint64 and wraps as in the source.
pub mod Bounds
use voolo_whatsapp_bridge.Common.{
  ℕ, zero, suc, ◌+◌, ◌-◌, ◌*◌, ◌/◌, ◌%◌, ◌^◌, min, max, Bool, true, false, not, ◌&&◌, ◌||◌, List,
  [], ◌∷◌, length, take, drop, Option, none, some, ltb, leb, ◌==◌, if◌then◌else◌,
}
use voolo_whatsapp_bridge.Protocol.Text.{Text, same_text}

abbrev pub max_ogg_bytes_per_second : ℕ
max_ogg_bytes_per_second = 72000

-- b[off], 0 behind the end.
unfoldable pub byte_at : ℕ → List ℕ → ℕ
byte_at n [] = 0
byte_at zero (b ∷ bs) = b
byte_at (suc n) (b ∷ bs) = byte_at n bs

-- binary.LittleEndian of the first n bytes.
unfoldable pub little_endian : ℕ → List ℕ → ℕ
little_endian zero bs = 0
little_endian (suc n) [] = 0
little_endian (suc n) (b ∷ bs) = b + 256 * little_endian n bs

unfoldable pub sum_of : List ℕ → ℕ
sum_of [] = 0
sum_of (l ∷ ls) = l + sum_of ls

-- The bit of value `bit` of a byte.
abbrev pub has_bit : ℕ → ℕ → Bool
has_bit flags bit = (flags / bit % 2) == 1

abbrev pub oggs : List ℕ
oggs = b'O' ∷ b'g' ∷ b'g' ∷ b'S' ∷ []

abbrev pub opus_head : List ℕ
opus_head = b'O' ∷ b'p' ∷ b'u' ∷ b's' ∷ b'H' ∷ b'e' ∷ b'a' ∷ b'd' ∷ []

-- The variables of the loop; `first` is page == 0.
pub record Pages : Type 0 where
  pub first : Bool
  pub serial : ℕ
  pub prev_seq : ℕ
  pub pre_skip : ℕ
  pub max_gr : ℕ
  pub seen_gr : Bool
  pub ended : Bool

abbrev pub no_pages : Pages
no_pages = record {
  first = true;
  serial = 0;
  prev_seq = 0;
  pre_skip = 0;
  max_gr = 0;
  seen_gr = false;
  ended = false;
}

-- The bytes of a page's header and of its body.
abbrev pub header_bytes : List ℕ → ℕ
header_bytes b = 27 + byte_at 26 b

abbrev pub body_bytes : List ℕ → ℕ
body_bytes b = sum_of (take (byte_at 26 b) (drop 27 b))

-- What the page says of the stream: the first one begins it, a later one belongs to it.
unfoldable pub joined : List ℕ → List ℕ → Pages → Option Pages
unfolding byte_at little_endian
joined b body p =
    let flags = byte_at 5 b in
    let ser = little_endian 4 (drop 14 b) in
    let seq = little_endian 4 (drop 18 b) in
    if p.first
    then (if not (has_bit flags 2)
          || (ltb (length body) 19 || not (same_text (take 8 body) opus_head))
        then none
        else some (record p {
          first = false;
          serial = ser;
          pre_skip = little_endian 2 (drop 10 body);
          prev_seq = seq;
        }))
    else (if not (ser == p.serial) || (has_bit flags 2 || not (seq == (p.prev_seq + 1) % 2 ^ 32))
        then none
        else some (record p { prev_seq = seq }))

-- Its granule.
abbrev pub granulated : ℕ → Pages → Option Pages
granulated granule p =
    if granule == 2 ^ 64 - 1
    then some p
    else (if p.seen_gr && ltb granule p.max_gr
        then none
        else some (record p { max_gr = granule; seen_gr = true }))

abbrev pub with_granule : List ℕ → Option Pages → Option Pages
with_granule b none = none
with_granule b (some p) = granulated (little_endian 8 (drop 6 b)) p

abbrev pub with_end : List ℕ → Option Pages → Option Pages
with_end b none = none
with_end b (some p) = some (record p { ended = has_bit (byte_at 5 b) 4 })

-- One page at the start of `b`: the variables behind it, or none for a stream that is not one.
unfoldable pub page : List ℕ → Pages → Option Pages
unfolding byte_at sum_of joined little_endian
page b p =
    if p.ended || (ltb (length b) 27 || (not (same_text (take 4 b) oggs) || not (byte_at 4 b == 0)))
    then none
    else (if ltb (length b) (header_bytes b)
        then none
        else (if ltb (length b - header_bytes b) (body_bytes b)
            then none
            else with_end b
                (with_granule b (joined b (take (body_bytes b) (drop (header_bytes b) b)) p))))

-- How the loop ends.
pub data Walked : Type 0 where
  refused out_of_fuel : Walked
  read_all : Pages → Walked

abbrev pub walk_on : Option Pages → (Pages → Walked) → Walked
walk_on none next = refused
walk_on (some p) next = next p

unfoldable pub walk : ℕ → List ℕ → Pages → Walked
unfolding page
walk fuel [] p = read_all p
walk zero (x ∷ b) p = out_of_fuel
walk (suc fuel) (x ∷ b) p =
    walk_on (page (x ∷ b) p)
      (λ q. walk fuel (drop (header_bytes (x ∷ b) + body_bytes (x ∷ b)) (x ∷ b)) q)

-- The duration of the pages read, and OggDurationSeconds.
abbrev pub floor_of : List ℕ → ℕ
floor_of b = (length b + max_ogg_bytes_per_second - 1) / max_ogg_bytes_per_second

abbrev pub seconds_of : Pages → ℕ
seconds_of p = min ((p.max_gr - p.pre_skip + 47999) % 2 ^ 64 / 48000) (2 ^ 31 - 1)

abbrev pub duration_of : List ℕ → Walked → ℕ
duration_of b refused = 0
duration_of b out_of_fuel = 0
duration_of b (read_all p) =
    if not p.seen_gr || leb p.max_gr p.pre_skip then 0 else max (seconds_of p) (floor_of b)

unfoldable pub ogg_duration_seconds : List ℕ → ℕ
unfolding walk
ogg_duration_seconds b = duration_of b (walk (length b) b no_pages)
