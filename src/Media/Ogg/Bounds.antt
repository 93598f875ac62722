-- ===== src/Media/Ogg/Bounds.antt =====
-- OggDurationSeconds of internal/media/media.go comes to its end, and what it answers at least.
use voolo_whatsapp_bridge.Common.{
  ℕ, zero, suc, ◌+◌, ◌-◌, ◌*◌, ◌≤◌, ◌≡◌, ◌≢◌, refl, ◌⊎◌, inl, inr, not, ◌||◌, List, [], ◌∷◌, length,
  drop, Option, none, some, arith, leb, by_test,
}
use voolo_whatsapp_bridge.Media.Ogg.{
  Pages, no_pages, header_bytes, body_bytes, page, Walked, refused, out_of_fuel, read_all, walk_on,
  walk, duration_of, ogg_duration_seconds,
}

length-drop : (n : ℕ) (xs : List ℕ) → length (drop n xs) ≡ length xs - n
length-drop zero xs = omega arith
length-drop (suc n) [] = omega arith
length-drop (suc n) (x ∷ xs) = omega (arith, length-drop n xs)

walk_on-ends :
    (o : Option Pages) (next : Pages → Walked)
    → ((q : Pages) → next q ≢ out_of_fuel)
    → walk_on o next ≢ out_of_fuel
walk_on-ends none next h = λ e. ground arith
walk_on-ends (some p) next h = h p

-- Fuel for each byte is enough for the loop over the pages.
pub walk-ends : (fuel : ℕ) (b : List ℕ) (p : Pages) → length b ≤ fuel → walk fuel b p ≢ out_of_fuel
unfolding walk
walk-ends fuel [] p h = λ e. ground arith
walk-ends zero (x ∷ b) p h = absurd (omega (arith, h))
walk-ends (suc fuel) (x ∷ b) p h = walk_on-ends (page (x ∷ b) p) _ (λ q.
    walk-ends fuel (drop (header_bytes (x ∷ b) + body_bytes (x ∷ b)) (x ∷ b)) q
      (omega (arith, h, length-drop (header_bytes (x ∷ b) + body_bytes (x ∷ b)) (x ∷ b))))

-- The duration of a stream of bytes is 0, or no shorter than its size allows at 72,000 bytes a second;
-- and for every stream the loop over its pages comes to its end.
pub ogg_duration-floor :
    (b : List ℕ)
    → (walk (length b) b no_pages ≢ out_of_fuel)
      × ((ogg_duration_seconds b ≡ 0) ⊎ (length b ≤ 72000 * ogg_duration_seconds b))
unfolding ogg_duration_seconds
ogg_duration-floor b =
    (walk-ends (length b) b no_pages (omega arith), floor (walk (length b) b no_pages))
  where
    floor : (w : Walked) → (duration_of b w ≡ 0) ⊎ (length b ≤ 72000 * duration_of b w)
    floor refused = inl refl
    floor out_of_fuel = inl refl
    floor (read_all p) =
        by_test (λ n. (n ≡ 0) ⊎ (length b ≤ 72000 * n)) (not p.seen_gr || leb p.max_gr p.pre_skip)
          (λ e. inl refl) (λ e. inr (omega arith))
