-- ===== src/Protocol/Ulid/Made.antt =====
-- The ids that IDSource.New of internal/protocol/envelope.go makes pass IsULID.
use voolo_whatsapp_bridge.Common.{
  ℕ, zero, suc, ◌+◌, ◌-◌, ◌*◌, ◌/◌, ◌%◌, ◌^◌, ◌≤◌, ◌<◌, ◌≡◌, refl, ap, ◌∙◌, subst, Bool, true, ◌&&◌,
  List, [], ◌∷◌, ◌++◌, map, length, leb, leb→le, arith, All, by_test, Bool-cases, inl, inr,
  if◌then◌else◌,
}
use Prim.Native.Nat.pow
use native.Mathlib.Nat.{mul-le-mul_right}
use voolo_whatsapp_bridge.Protocol.Text.{between, all_of, ulid_char, is_ulid}
use voolo_whatsapp_bridge.Protocol.Ulid.{
  crockford, time_bytes, Packing, drain, pack, last_slot, start, new_id,
}

abbrev pub IsByte : ℕ → Type 0
IsByte b = b < 256

abbrev IsDigit : ℕ → Type 0
IsDigit d = d < 32

-- acc has no more than `bits` bits, and every place is one of the 32 digits.
abbrev IsTidy : Packing → Type 0
IsTidy p = (p.acc < 2 ^ p.bits) × All IsDigit p.out

pow_suc : (n : ℕ) → 2 ^ suc n ≡ 2 ^ n * 2
pow_suc n = pow.suc 2 n

pow_four : (n : ℕ) → 2 ^ suc (suc (suc (suc n))) ≡ 16 * 2 ^ n
pow_four n =
    omega (arith, pow_suc n, pow_suc (suc n), pow_suc (suc (suc n)), pow_suc (suc (suc (suc n))))

pow_fifth : (n : ℕ) → 2 ^ suc (suc (suc (suc (suc n)))) ≡ 32 * 2 ^ n
pow_fifth n = omega (arith, pow_suc n, pow_four (suc n))

minus_five : (n : ℕ) → 5 ≤ n → n ≡ suc (suc (suc (suc (suc (n - 5)))))
minus_five n h = omega (arith, h)

pow_minus : (n : ℕ) → 5 ≤ n → 2 ^ n ≡ 32 * 2 ^ (n - 5)
pow_minus n h = ap (λ k. 2 ^ k) (minus_five n h) ∙ pow_fifth (n - 5)

pow_eighth : (n : ℕ) → 2 ^ suc (suc (suc (suc (suc (suc (suc (suc n))))))) ≡ 256 * 2 ^ n
pow_eighth n = omega (arith, pow_four n, pow_four (suc (suc (suc (suc n)))))

plus_eight : (n : ℕ) → n + 8 ≡ suc (suc (suc (suc (suc (suc (suc (suc n)))))))
plus_eight n = omega arith

pow_eight : (n : ℕ) → 2 ^ (n + 8) ≡ 256 * 2 ^ n
pow_eight n = ap (λ k. 2 ^ k) (plus_eight n) ∙ pow_eighth n

mul_le : (b c x : ℕ) → b ≤ c → b * x ≤ c * x
mul_le b c x h = mul-le-mul_right x h

drain-IsTidy :
    (n acc bits : ℕ) (out : List ℕ)
    → acc < 2 ^ bits
    → All IsDigit out
    → IsTidy (drain n acc bits out)
unfolding drain
drain-IsTidy zero acc bits out h o = (h, o)
drain-IsTidy (suc n) acc bits out h o =
    by_test IsTidy (leb 5 bits)
      (λ e.
        drain-IsTidy n (acc / 32) (bits - 5) (acc % 32 ∷ out)
          (omega (arith, h, pow_minus bits (leb→le 5 bits e))) (omega arith, o))
      (λ e. (h, o))

take_in_lt : (acc b bits : ℕ) → acc < 2 ^ bits → b < 256 → acc + b * 2 ^ bits < 2 ^ (bits + 8)
take_in_lt acc b bits h i =
    rw (pow_eight bits) (omega (arith, h, mul_le b 255 (2 ^ bits) (omega arith)))

ulid_char-crockford : (d : ℕ) → d < 32 → ulid_char (crockford d) ≡ true
ulid_char-crockford d h = ground (arith, h)

crockford_first : (d : ℕ) → d < 8 → between b'0' b'7' (crockford d) ≡ true
crockford_first d h = ground (arith, h)

pack-IsTidy : (p : Packing) (bs : List ℕ) → IsTidy p → All IsByte bs → IsTidy (pack p bs)
unfolding pack
pack-IsTidy p [] t h = t
pack-IsTidy p (b ∷ bs) t h =
    pack-IsTidy (drain p.slots (p.acc + b * 2 ^ p.bits) (p.bits + 8) p.out) bs
      (drain-IsTidy p.slots (p.acc + b * 2 ^ p.bits) (p.bits + 8) p.out
        (take_in_lt p.acc b p.bits t.0 h.0) t.1)
      h.1

-- How far the packing is depends on the number of bytes alone.
record Shape : Type 0 where
  slots : ℕ
  bits : ℕ
  places : ℕ

abbrev shape : Packing → Shape
shape p = record { slots = p.slots; bits = p.bits; places = length p.out }

unfoldable drained : ℕ → ℕ → ℕ → Shape
drained zero bits k = record { slots = 0; bits = bits; places = k }
drained (suc n) bits k =
    let next = drained n (bits - 5) (suc k) in
    if leb 5 bits then next else record { slots = suc n; bits = bits; places = k }

unfoldable packed : Shape → ℕ → Shape
unfolding drained
packed s zero = s
packed s (suc n) = packed (drained s.slots (s.bits + 8) s.places) n

shape-drain :
    (n acc bits : ℕ) (out : List ℕ) → shape (drain n acc bits out) ≡ drained n bits (length out)
unfolding drain drained
shape-drain zero acc bits out = refl
shape-drain (suc n) acc bits out = elim (Bool-cases (leb 5 bits)) [
  | inl e ↦ rw e (shape-drain n (acc / 32) (bits - 5) (acc % 32 ∷ out))
  | inr e ↦ rw e refl
]

shape-pack : (p : Packing) (bs : List ℕ) → shape (pack p bs) ≡ packed (shape p) (length bs)
unfolding pack packed
shape-pack p [] = refl
shape-pack p (b ∷ bs) =
    let next = drain p.slots (p.acc + b * 2 ^ p.bits) (p.bits + 8) p.out in
    shape-pack next bs
    ∙ ap (λ s. packed s (length bs))
        (shape-drain p.slots (p.acc + b * 2 ^ p.bits) (p.bits + 8) p.out)

packed_sixteen : packed (shape start) 16 ≡ record { slots = 1; bits = 3; places = 25 }
unfolding packed
packed_sixteen = refl

time_bytes-IsByte : (n ms : ℕ) → All IsByte (time_bytes n ms)
unfolding time_bytes
time_bytes-IsByte zero ms = tt
time_bytes-IsByte (suc n) ms = (omega arith, time_bytes-IsByte n (ms / 256))

All-append : (xs ys : List ℕ) → All IsByte xs → All IsByte ys → All IsByte (xs ++ ys)
All-append [] ys h k = k
All-append (x ∷ xs) ys h k = (h.0, All-append xs ys h.1 k)

length_append : (xs ys : List ℕ) → length (xs ++ ys) ≡ length xs + length ys
length_append [] ys = omega arith
length_append (x ∷ xs) ys = omega (arith, length_append xs ys)

length-time_bytes : (ms : ℕ) → length (time_bytes 6 ms) ≡ 6
unfolding time_bytes
length-time_bytes ms = refl

length-map : (ds : List ℕ) → length (map crockford ds) ≡ length ds
length-map [] = refl
length-map (d ∷ ds) = ap suc (length-map ds)

all_of-map : (ds : List ℕ) → All IsDigit ds → all_of ulid_char (map crockford ds) ≡ true
unfolding all_of
all_of-map [] h = refl
all_of-map (d ∷ ds) h = rw (ulid_char-crockford d h.0) (all_of-map ds h.1)

all_three : {a b c : Bool} → a ≡ true → b ≡ true → c ≡ true → (a && b && c) ≡ true
all_three e f g = rw e (rw f g)

is_ulid-last_slot :
    (p : Packing)
    → IsTidy p
    → shape p ≡ record { slots = 1; bits = 3; places = 25 }
    → is_ulid (map crockford (last_slot p)) ≡ true
is_ulid-last_slot p t e =
    let one = ap (λ s. s.slots) e in
    let small = subst (λ k. p.acc < 2 ^ k) (ap (λ s. s.bits) e) t.0 in
    let long = length-map p.out ∙ ap (λ s. s.places) e in
    rw one (
      all_three (crockford_first (p.acc % 32) (omega (arith, small))) (rw long refl)
        (all_of-map p.out t.1))

sixteen : (ms : ℕ) (random : List ℕ) → length random ≡ 10 → length (random ++ time_bytes 6 ms) ≡ 16
sixteen ms random n =
    length_append random (time_bytes 6 ms) ∙ omega (arith, n, length-time_bytes ms)

-- Whatever the clock and the ten random bytes are, the id that New makes of them passes IsULID.
pub is_ulid-new_id :
    (ms : ℕ) (random : List ℕ)
    → length random ≡ 10
    → All IsByte random
    → is_ulid (new_id ms random) ≡ true
unfolding new_id
is_ulid-new_id ms random n h =
    let bs = random ++ time_bytes 6 ms in
    is_ulid-last_slot (pack start bs)
      (pack-IsTidy start bs (omega arith, tt)
        (All-append random (time_bytes 6 ms) h (time_bytes-IsByte 6 ms)))
      (shape-pack start bs ∙ ap (packed (shape start)) (sixteen ms random n) ∙ packed_sixteen)
