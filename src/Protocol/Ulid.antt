-- ===== src/Protocol/Ulid.antt =====
-- internal/protocol/envelope.go, IDSource: the ULIDs of the bridge's events.
-- crypto/rand is not modelled: the ten random bytes are an argument. In New `acc |= b << bits` adds
-- the byte above the `bits` bits that acc has; they are 12 at most, so nothing leaves 64 bits. `slots`
pub mod Made
-- is idx + 1, the places of `out` that are still free, and `out` the digits from there on.
use voolo_whatsapp_bridge.Common.{
  ℕ, zero, suc, ◌+◌, ◌-◌, ◌*◌, ◌/◌, ◌%◌, ◌^◌, List, [], ◌∷◌, ◌++◌, map, ltb, leb, ◌==◌,
  if◌then◌else◌,
}
use voolo_whatsapp_bridge.Protocol.Text.{Text}

-- crockford, at one index below 32.
abbrev pub crockford : ℕ → ℕ
crockford v =
    if ltb v 10
    then v + b'0'
    else (if ltb v 18
        then v - 10 + b'A'
        else (if ltb v 20
            then v - 18 + b'J'
            else (if ltb v 22
                then v - 20 + b'M'
                else (if ltb v 27 then v - 22 + b'P' else v - 27 + b'V'))))

-- The bytes of a number, lowest first: b[5] down to b[0].
unfoldable pub time_bytes : ℕ → ℕ → List ℕ
time_bytes zero ms = []
time_bytes (suc n) ms = ms % 256 ∷ time_bytes n (ms / 256)

pub record Packing : Type 0 where
  pub slots : ℕ
  pub acc : ℕ
  pub bits : ℕ
  pub out : List ℕ

-- for bits >= 5 && idx >= 0 { ... }
unfoldable pub drain : ℕ → ℕ → ℕ → List ℕ → Packing
drain zero acc bits out = record { slots = 0; acc = acc; bits = bits; out = out }
drain (suc n) acc bits out =
    let next = drain n (acc / 32) (bits - 5) (acc % 32 ∷ out) in
    if leb 5 bits then next else record { slots = suc n; acc = acc; bits = bits; out = out }

-- The loop over the bytes, from b[15] down.
unfoldable pub pack : Packing → List ℕ → Packing
unfolding drain
pack p [] = p
pack p (b ∷ bs) = pack (drain p.slots (p.acc + b * 2 ^ p.bits) (p.bits + 8) p.out) bs

-- if idx == 0 { out[0] = ... }
abbrev pub last_slot : Packing → List ℕ
last_slot p = if p.slots == 1 then p.acc % 32 ∷ p.out else p.out

abbrev pub start : Packing
start = record { slots = 26; acc = 0; bits = 0; out = [] }

-- New: `random` are the bytes b[15] down to b[6].
unfoldable pub new_id : ℕ → List ℕ → Text
unfolding time_bytes pack
new_id ms random = map crockford (last_slot (pack start (random ++ time_bytes 6 ms)))
