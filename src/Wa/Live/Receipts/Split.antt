-- ===== src/Wa/Live/Receipts/Split.antt =====
-- The receipt events of internal/wa/events.go carry each id of the receipt once, in order.
use Prim.Native.String.{String}
use voolo_whatsapp_bridge.Common.{
  ℕ, zero, suc, ◌-◌, ◌≤◌, ◌≡◌, refl, sym, ap, ◌∙◌, subst, false, not, ◌&&◌, List, [], ◌∷◌, ◌++◌,
  take, drop, length, some, arith, All, by_test_false, if◌then◌else◌, length-take,
}
use voolo_whatsapp_bridge.Wa.Live.{
  Spelling, ReceiptKind, Receipt, LiveLine, receipt_line, Live, Disk, say,
}
use voolo_whatsapp_bridge.Wa.Live.Jid.{Jids, Client}
use voolo_whatsapp_bridge.Wa.Live.Chats.{chat_jid}
use voolo_whatsapp_bridge.Wa.Live.Receipts.{
  max_receipt_ids, IncomingReceipt, receipts, of_kind, is_read_self, receipt_of, valid_ids,
  receipts_in, on_receipt,
}

-- The ids that the lines carry, in the order in which they were written.
abbrev pub carried : List LiveLine → List String
carried [] = []
carried (receipt_line r ∷ lines) = carried lines ++ r.message_ids
carried (l ∷ lines) = carried lines

-- One receipt event of the receipt `r`: it has 1 to 256 ids.
abbrev pub IsPart : Receipt → LiveLine → Type 0
IsPart r (receipt_line s) =
    (1 ≤ length s.message_ids)
    × (length s.message_ids ≤ max_receipt_ids)
    × (record s { message_ids = r.message_ids } ≡ r)
IsPart r l = ⊥

take-drop : (n : ℕ) (xs : List String) → take n xs ++ drop n xs ≡ xs
take-drop zero xs = refl
take-drop (suc n) [] = refl
take-drop (suc n) (x ∷ xs) = ap (λ ys. x ∷ ys) (take-drop n xs)

length-drop : (n : ℕ) (xs : List String) → length (drop n xs) ≡ length xs - n
length-drop zero xs = omega arith
length-drop (suc n) [] = omega arith
length-drop (suc n) (x ∷ xs) = omega (arith, length-drop n xs)

append_assoc : (xs ys zs : List String) → (xs ++ ys) ++ zs ≡ xs ++ (ys ++ zs)
append_assoc [] ys zs = refl
append_assoc (x ∷ xs) ys zs = ap (λ l. x ∷ l) (append_assoc xs ys zs)

append_nil : (xs : List String) → xs ++ [] ≡ xs
append_nil [] = refl
append_nil (x ∷ xs) = ap (λ l. x ∷ l) (append_nil xs)

lines_assoc : (xs ys zs : List LiveLine) → (xs ++ ys) ++ zs ≡ xs ++ (ys ++ zs)
lines_assoc [] ys zs = refl
lines_assoc (x ∷ xs) ys zs = ap (λ l. x ∷ l) (lines_assoc xs ys zs)

-- What the loop of onReceipt adds to the lines.
pub record Parts (r : Receipt) (ids : List String) (b t : Live) : Type 0 where
  pub parts : List LiveLine
  pub added : t.lines ≡ parts ++ b.lines
  pub each : All (IsPart r) parts
  pub all : carried parts ≡ ids

All-snoc :
    (P : LiveLine → Type 0) (xs : List LiveLine) (y : LiveLine)
    → All P xs
    → P y
    → All P (xs ++ y ∷ [])
All-snoc P [] y h p = (p, tt)
All-snoc P (x ∷ xs) y h p = (h.0, All-snoc P xs y h.1 p)

carried-snoc :
    (r : Receipt) (xs : List LiveLine) (s : Receipt)
    → All (IsPart r) xs
    → carried (xs ++ receipt_line s ∷ []) ≡ s.message_ids ++ carried xs
carried-snoc r [] s h = sym (append_nil s.message_ids)
carried-snoc r (receipt_line q ∷ xs) s h =
    ap (λ l. l ++ q.message_ids) (carried-snoc r xs s h.1)
    ∙ append_assoc s.message_ids (carried xs) q.message_ids
carried-snoc r (l ∷ xs) s h = absurd h.0

-- A round of the loop before the others.
next-Parts :
    (r : Receipt) (i : String) (ids : List String) (b t : Live)
    → (let first = record r { message_ids = take max_receipt_ids (i ∷ ids) } in
        Parts r (drop max_receipt_ids (i ∷ ids)) (say (receipt_line first) b) t)
    → Parts r (i ∷ ids) b t
unfolding say
next-Parts r i ids b t rest = record {
  parts = rest.parts ++ receipt_line first ∷ [];
  added = rest.added ∙ sym (lines_assoc rest.parts (receipt_line first ∷ []) b.lines);
  each = All-snoc (IsPart r) rest.parts (receipt_line first) rest.each sized;
  all =
      carried-snoc r rest.parts first rest.each
      ∙ ap (λ l. first.message_ids ++ l) rest.all
      ∙ take-drop max_receipt_ids (i ∷ ids);
}
  where
    first : Receipt
    first = record r { message_ids = take max_receipt_ids (i ∷ ids) }

    sized : IsPart r (receipt_line first)
    sized = (
      omega (arith, length-take max_receipt_ids (i ∷ ids)),
      omega (arith, length-take max_receipt_ids (i ∷ ids)),
      refl,
    )

-- With fuel for each id, the loop writes every id once and in order.
pub receipts-Parts :
    (fuel : ℕ) (r : Receipt) (ids : List String) (b : Live)
    → length ids ≤ fuel
    → Parts r ids b (receipts fuel r ids b)
unfolding receipts
receipts-Parts zero r [] b h = record { parts = []; added = refl; each = tt; all = refl }
receipts-Parts zero r (i ∷ ids) b h = absurd (omega (arith, h))
receipts-Parts (suc fuel) r [] b h = record { parts = []; added = refl; each = tt; all = refl }
receipts-Parts (suc fuel) r (i ∷ ids) b h = next-Parts r i ids b _ (
    receipts-Parts fuel r (drop max_receipt_ids (i ∷ ids)) _
      (omega (arith, h, length-drop max_receipt_ids (i ∷ ids))))

-- A receipt of a reported kind, in a chat that is reported and not of the own account unless it was read
-- on another device, becomes events of 1 to 256 ids each which together carry, once and in
-- order, the ids of the receipt that are message ids.
pub on_receipt-Parts :
    (c : Spelling) {J : Type 0} (jids : Jids J) (cli : Client J) (d : Disk) (e : IncomingReceipt J)
    (k : ReceiptKind) (chat : String) (b b' : Live)
    → e.kind ≡ some k
    → (e.from_me && not (is_read_self k)) ≡ false
    → chat_jid c jids cli d e.chat (if e.is_group then jids.empty else e.sender_alt) b
      ≡ (some chat, b')
    → Parts
        (receipt_of c jids cli d e k chat)
        (valid_ids c jids cli d e)
        b'
        (on_receipt c jids cli d e b)
unfolding on_receipt
on_receipt-Parts c jids cli d e k chat b b' ek own ec =
    subst (λ o. P (of_kind c jids cli d e o b)) (sym ek)
      (subst P (sym (by_test_false (e.from_me && not (is_read_self k)) _ _ own)) (
        subst (λ r. P (receipts_in c jids cli d e k r)) (sym ec)
          (receipts-Parts (length (valid_ids c jids cli d e)) (receipt_of c jids cli d e k chat)
            (valid_ids c jids cli d e) b' (omega arith))))
  where
    P : Live → Type 0
    P = Parts (receipt_of c jids cli d e k chat) (valid_ids c jids cli d e) b'
