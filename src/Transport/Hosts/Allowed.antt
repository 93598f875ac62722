-- ===== src/Transport/Hosts/Allowed.antt =====
-- What HostAllowed (internal/transport/allowlist.go) lets pass.
use voolo_whatsapp_bridge.Common.{
  ℕ, ◌-◌, ◌<◌, ◌≡◌, ◌↔◌, ◌⊎◌, inl, inr, refl, ap, sym, ◌∙◌, subst, Bool, true, false, ◌||◌, List,
  [], ◌∷◌, ◌++◌, length, length-append, drop, take, leb, arith, ltb→lt,
}
use voolo_whatsapp_bridge.Common.Sort.{take-append-drop}
use voolo_whatsapp_bridge.Transport.Hosts.{
  exact_host, suffix_net, suffix_com, same, has_suffix, trim_brackets, all_host_chars, has_dots,
  is_hostname, normal, on_suffix, host_allowed,
}

same→eq : (a b : List ℕ) → same a b ≡ true → a ≡ b
unfolding same
same→eq [] [] h = refl
same→eq [] (b ∷ y) h = cc
same→eq (a ∷ x) [] h = cc
same→eq (a ∷ x) (b ∷ y) h = ground (arith, same→eq x y)

same_refl : (a : List ℕ) → same a a ≡ true
unfolding same
same_refl [] = refl
same_refl (a ∷ x) = ground (arith, same_refl x)

drop-append : (xs ys : List ℕ) → drop (length xs) (xs ++ ys) ≡ ys
drop-append [] ys = refl
drop-append (x ∷ xs) ys = drop-append xs ys

suffix_split : (h s : List ℕ) → has_suffix h s ≡ true → (label : List ℕ) × (h ≡ label ++ s)
unfolding has_suffix
suffix_split h s e = (
  take (length h - length s) h,
  sym (take-append-drop (length h - length s) h)
      ∙ ap (λ l. take (length h - length s) h ++ l) (same→eq _ _ (ground arith)),
)

split_suffix : (label s : List ℕ) → has_suffix (label ++ s) s ≡ true
unfolding has_suffix
split_suffix label s =
    rw (cut) (rw (drop-append label s, same_refl s) (ground (arith, length-append label s)))
  where
    cut : length (label ++ s) - length s ≡ length label
    cut = omega (arith, length-append {0} label s)

-- The names of the list: web.whatsapp.com, and the names under whatsapp.net and whatsapp.com with
-- something before the dot, made of host name characters and with no empty label inside.
pub data OnList (h : List ℕ) : Type 0 where
  exact : h ≡ exact_host → OnList h
  under :
      (label s : List ℕ)
      → (s ≡ suffix_net) ⊎ (s ≡ suffix_com)
      → 0 < length label
      → h ≡ label ++ s
      → all_host_chars h ≡ true
      → has_dots h ≡ false
      → OnList h

nonempty : (h : List ℕ) → 0 < length h → leb (length h) 0 ≡ false
nonempty h p = ground arith

any_of_three : (a b c : Bool) → (a || b || c) ≡ true → (a ≡ true) ⊎ ((b ≡ true) ⊎ (c ≡ true))
any_of_three a b c e = ground arith

one_of_three : (a b c : Bool) → (a ≡ true) ⊎ ((b ≡ true) ⊎ (c ≡ true)) → (a || b || c) ≡ true
one_of_three a b c e = ground arith

module _ (lower_other : ℕ → ℕ) (parses_as_ip : List ℕ → Bool) (host : List ℕ) where
  on_suffix-OnList :
      (h s : List ℕ)
      → (s ≡ suffix_net) ⊎ (s ≡ suffix_com)
      → on_suffix lower_other parses_as_ip h s ≡ true
      → OnList h
  unfolding is_hostname
  on_suffix-OnList h s k e =
      let (label, split) = suffix_split h s (ground arith) in
      under label s k
        (omega (
          arith,
          ltb→lt (length s) (length h) (ground arith),
          ap length split,
          length-append {0} label s,
        ))
        split (ground arith) (ground arith)

  OnList-on_suffix :
      (label s : List ℕ)
      → 0 < length label
      → all_host_chars (label ++ s) ≡ true
      → has_dots (label ++ s) ≡ false
      → on_suffix lower_other parses_as_ip (label ++ s) s ≡ true
  unfolding is_hostname
  OnList-on_suffix label s l c d =
      rw (split_suffix label s, c, d) (ground (arith, length-append label s))

  judged : List ℕ → Bool
  judged h =
      same h exact_host
      || on_suffix lower_other parses_as_ip h suffix_net
      || on_suffix lower_other parses_as_ip h suffix_com

  judged-OnList : (h : List ℕ) → judged h ≡ true → OnList h
  unfolding judged
  judged-OnList h e = elim (any_of_three _ _ _ e) [
    | inl f ↦ exact (same→eq h exact_host f)
    | inr g ↦ elim g [
      | inl f ↦ on_suffix-OnList h suffix_net (inl refl) f
      | inr f ↦ on_suffix-OnList h suffix_com (inr refl) f
    ]
  ]

  judged_under :
      (h : List ℕ)
      → (on_suffix lower_other parses_as_ip h suffix_net ≡ true)
        ⊎ (on_suffix lower_other parses_as_ip h suffix_com ≡ true)
      → judged h ≡ true
  unfolding judged
  judged_under h k =
      one_of_three (same h exact_host) (on_suffix lower_other parses_as_ip h suffix_net)
        (on_suffix lower_other parses_as_ip h suffix_com) (inr k)

  judged_exact : judged exact_host ≡ true
  unfolding judged
  judged_exact = rw (same_refl exact_host)

  OnList-judged : (h : List ℕ) → OnList h → judged h ≡ true
  OnList-judged h (exact e) = rw e judged_exact
  OnList-judged h (under label s (inl k) l e c d) = rw e (
      judged_under (label ++ s) (
        inl (
          subst (λ t. on_suffix lower_other parses_as_ip (label ++ s) t ≡ true) k
            (OnList-on_suffix label s l (rw e at c) (rw e at d)))))
  OnList-judged h (under label s (inr k) l e c d) = rw e (
      judged_under (label ++ s) (
        inr (
          subst (λ t. on_suffix lower_other parses_as_ip (label ++ s) t ≡ true) k
            (OnList-on_suffix label s l (rw e at c) (rw e at d)))))

  OnList-nonempty : (h : List ℕ) → OnList h → leb (length h) 0 ≡ false
  OnList-nonempty h (exact e) = rw e refl
  OnList-nonempty h (under label s k l e c d) =
      nonempty h (omega (arith, ap length e, length-append {0} label s))

  -- HostAllowed lets a host pass exactly if, without a last dot and in lower case, it is not an IP
  -- literal and is one of the names of the list.
  pub host_allowed-OnList : (host_allowed lower_other parses_as_ip host ≡ true) ↔ (
      (parses_as_ip (trim_brackets (normal lower_other parses_as_ip host)) ≡ false)
      × OnList (normal lower_other parses_as_ip host))
  unfolding host_allowed judged
  host_allowed-OnList =
      let h = normal lower_other parses_as_ip host in
      (
        (λ e. (ground arith, judged-OnList h (ground arith))),
        λ (ip, on). rw (ip, OnList-nonempty h on) (OnList-judged h on),
      )
