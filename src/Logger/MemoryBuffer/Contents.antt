-- ===== src/Logger/MemoryBuffer/Contents.antt =====
-- The buffer is a bounded queue: its contents are the latest messages, oldest first.
use libhif.Base.{
  ℕ, zero, suc, ◌+◌, ◌-◌, ◌≤◌, ◌<◌, ◌||◌, none, List, [], ◌∷◌, ◌++◌, ◌≡◌, ◌≢◌, inl, inr, refl, sym,
  ap, ap₂, ◌∙◌, arith, ltb, leb, ◌==◌, if◌then◌else◌, length, take, drop, get_elem?, set,
  length-append, length-set, length-drop, length-take-le, take_all, take_last, take_last-concat,
  drop_all, drop-suc, drop-append-le, drop-set, take-set, get_elem?-append_left,
  get_elem?-append_right, get_elem?-drop, get_elem?-take, get_elem?-none, get_elem?-some,
  drop-get_elem?, append_assoc, append-nil, Bool-cases,
}
use libhif.Logger.MemoryBuffer.{
  Item, Buffer, new, write, get_item, send, write_to_logger, write_all,
}

-- The messages kept, oldest first.
abbrev pub contents : Buffer → List Item
contents b = drop b.first_item_idx b.items ++ take b.first_item_idx b.items

-- The messages that a buffer with this limit keeps of a history; 0 means no limit.
abbrev pub latest : ℕ → List Item → List Item
latest n h = if n == 0 then h else take_last n h

-- Only a full buffer has wrapped, and the place of the oldest message is inside it.
pub record IsValid (b : Buffer) : Type 0 where
  pub bounded : b.max_items ≢ 0 → length b.items ≤ b.max_items
  pub wrapped :
      b.first_item_idx ≢ 0 → (length b.items ≡ b.max_items) × (b.first_item_idx < b.max_items)

new-IsValid : (n : ℕ) → IsValid (new n)
unfolding new
new-IsValid n = ground arith

pub write-IsValid : (b : Buffer) (m : Item) → IsValid b → IsValid (write b m)
unfolding write
write-IsValid b m v =
    ground (arith, length-append b.items (m ∷ []), length-set b.items b.first_item_idx m)

send-drop :
    (items : List Item) (idx rounds : ℕ) → send items idx rounds ≡ take rounds (drop idx items)
unfolding send
send-drop items idx zero = refl
send-drop items idx (suc rounds) = elim (Bool-cases (ltb idx (length items))) [
  | inl inside ↦
      let (x, e) = get_elem?-some items idx (ground arith) in
      rw (e, send, drop-get_elem? idx items x e)
        (ap (◌∷◌ x) (
          send-drop items (idx + 1) rounds
          ∙ ap (λ k. take rounds (drop k items)) {y = suc idx} (omega arith)))
  | inr past ↦ rw (get_elem?-none items idx (ground arith), send, drop_all idx items (ground arith))
]

-- Only a valid buffer reads no element out of range, and a whole one is sent oldest first.
pub write_to_logger-contents : (b : Buffer) → IsValid b → write_to_logger b ≡ contents b
unfolding write_to_logger
write_to_logger-contents b v =
    rw (send-drop b.items b.first_item_idx, send-drop b.items 0)
      (ap (λ l. l ++ take b.first_item_idx b.items)
        (take_all _ _ (omega (arith, length-drop b.first_item_idx b.items))))

-- One write: the message is appended, and a full buffer loses its oldest one.
write_push :
    (b : Buffer) (m : Item)
    → b.first_item_idx ≡ 0
    → contents (record b { items = b.items ++ (m ∷ []) }) ≡ contents b ++ (m ∷ [])
write_push b m z =
    rw z (append-nil (b.items ++ (m ∷ [])) ∙ sym (ap (λ l. l ++ (m ∷ [])) (append-nil b.items)))

rotate_step :
    (items : List Item) (f : ℕ) (m : Item)
    → f < length items
    → drop (suc f) (set items f m) ++ take (suc f) (set items f m)
      ≡ drop 1 (drop f items ++ take f items) ++ (m ∷ [])
rotate_step items f m h = rw (
  drop-set f items m,
  take-set f items m h,
  drop-append-le 1 (drop f items) (take f items) (omega (arith, length-drop f items)),
  drop-suc f items,
  append_assoc,
)

rotate_wrap :
    (items : List Item) (f cap : ℕ) (m : Item)
    → f < length items
    → length items ≡ cap
    → drop (if leb cap (f + 1) then 0 else f + 1) (set items f m)
        ++ take (if leb cap (f + 1) then 0 else f + 1) (set items f m)
      ≡ drop 1 (drop f items ++ take f items) ++ (m ∷ [])
rotate_wrap items f cap m h e = elim (Bool-cases (leb cap (f + 1))) [
  | inl last ↦ rw last (
      append-nil (set items f m)
      ∙ sym (
          ap₂ ◌++◌ (drop_all (suc f) (set items f m) (ground (arith, length-set items f m)))
            (take_all (suc f) (set items f m) (ground (arith, length-set items f m))))
      ∙ rotate_step items f m h)
  | inr more ↦ let s : f + 1 ≡ suc f = omega arith in rw (more, s) (rotate_step items f m h)
]

length-contents : (b : Buffer) → IsValid b → length (contents b) ≡ length b.items
length-contents b v = ground (
  arith,
  length-append (drop b.first_item_idx b.items) (take b.first_item_idx b.items),
  length-drop b.first_item_idx b.items,
  length-take-le b.first_item_idx b.items,
)

write_steps :
    (b : Buffer) (m : Item)
    → IsValid b
    → contents (write b m) ≡ (
        if b.max_items == 0 || ltb (length b.items) b.max_items
        then contents b ++ (m ∷ [])
        else drop 1 (contents b) ++ (m ∷ []))
unfolding write
write_steps b m v = elim (Bool-cases (b.max_items == 0 || ltb (length b.items) b.max_items)) [
  | inl room ↦ rw room (write_push b m (ground arith))
  | inr full ↦
      rw full (rotate_wrap b.items b.first_item_idx b.max_items m (ground arith) (ground arith))
]

-- One write appends the message to the contents, and with a limit keeps the latest of them.
pub write-contents :
    (b : Buffer) (m : Item)
    → IsValid b
    → contents (write b m) ≡ latest b.max_items (contents b ++ (m ∷ []))
write-contents b m v = write_steps b m v ∙ elim (Bool-cases (b.max_items == 0)) [
  | inl free ↦ rw free
  | inr capped ↦ rw capped (elim (Bool-cases (ltb (length b.items) b.max_items)) [
    | inl room ↦ rw room (ap (λ k. drop k (contents b ++ (m ∷ []))) {x = 0} (ground (arith, count)))
    | inr full ↦ rw full (
        sym (drop-append-le 1 (contents b) (m ∷ []) (ground (arith, count)))
        ∙ ap (λ k. drop k (contents b ++ (m ∷ []))) {x = 1} (ground (arith, count)))
  ])
]
  where
    count :
        (length (contents b ++ (m ∷ [])) ≡ length b.items + 1)
        × (length (contents b) ≡ length b.items)
    count = (
      omega (arith, length-append (contents b) (m ∷ []), length-contents b v),
      length-contents b v,
    )

-- In a valid buffer with a limit get_item gives the message at a place of the contents.
pub get_item-contents :
    (b : Buffer) (i : ℕ) → IsValid b → b.max_items ≢ 0 → get_item b i ≡ get_elem? (contents b) i
unfolding get_item
get_item-contents b i v h = elim (Bool-cases (leb (length b.items) i || leb b.max_items i)) [
  | inl out ↦ rw out (sym (get_elem?-none (contents b) i (ground (arith, length-contents b v))))
  | inr inside ↦ rw inside (elim (Bool-cases (leb (length items - f) i)) [
    | inl over ↦
        ap (get_elem? items) (ground (arith, length-drop f items))
        ∙ sym (
            get_elem?-take f items (i - length (drop f items))
              (ground (arith, length-drop f items)))
        ∙ sym (
            get_elem?-append_right (drop f items) (take f items) i
              (ground (arith, length-drop f items)))
    | inr under ↦
        ap (get_elem? items) (ground arith)
        ∙ sym (get_elem?-drop f items i)
        ∙ sym (
            get_elem?-append_left (drop f items) (take f items) i
              (ground (arith, length-drop f items)))
  ])
]
  where
    open b use {items, first_item_idx as f}

-- Without a limit `get_item` refuses every position.
pub get_item_unlimited : (b : Buffer) (i : ℕ) → b.max_items ≡ 0 → get_item b i ≡ none
unfolding get_item
get_item_unlimited b i h = ground arith

max_items-write : (b : Buffer) (m : Item) → (write b m).max_items ≡ b.max_items
unfolding write
max_items-write b m = ground arith

max_items-write_all : (b : Buffer) (ms : List Item) → (write_all b ms).max_items ≡ b.max_items
unfolding write_all
max_items-write_all b [] = refl
max_items-write_all b (m ∷ ms) = max_items-write_all (write b m) ms ∙ max_items-write b m

latest-concat :
    (n : ℕ) (h : List Item) (m : Item)
    → latest n (latest n h ++ (m ∷ [])) ≡ latest n (h ++ (m ∷ []))
latest-concat n h m = elim (Bool-cases (n == 0)) [
  | inl free ↦ rw free
  | inr capped ↦ rw capped (take_last-concat n h m)
]

write_all-latest :
    (b : Buffer) (ms h : List Item)
    → IsValid b
    → contents b ≡ latest b.max_items h
    → IsValid (write_all b ms) × (contents (write_all b ms) ≡ latest b.max_items (h ++ ms))
unfolding write_all
write_all-latest b [] h v e = (v, rw append-nil e)
write_all-latest b (m ∷ ms) h v e =
    let step : contents (write b m) ≡ latest (write b m).max_items (h ++ (m ∷ [])) =
      rw max_items-write (
        write-contents b m v
        ∙ ap (λ l. latest b.max_items (l ++ (m ∷ []))) e
        ∙ latest-concat b.max_items h m) in
    let (v', e') = write_all-latest (write b m) ms (h ++ (m ∷ [])) (write-IsValid b m v) step in
    (v', e' ∙ rw (max_items-write b m, append_assoc))

-- A new buffer that has been written to is valid and sends on the latest messages in the order
-- of their arrival: all of them without a limit, else as many as the limit.
pub write_to_logger-write_all :
    (n : ℕ) (ms : List Item)
    → IsValid (write_all (new n) ms) × (write_to_logger (write_all (new n) ms) ≡ latest n ms)
unfolding new
write_to_logger-write_all n ms =
    let (v, e) = write_all-latest (new n) ms [] (new-IsValid n) (ground arith) in
    (v, write_to_logger-contents _ v ∙ e)

-- After any messages that are written to a new buffer: with a limit, which is not 0, get_item gives the message at a
-- place of the latest messages, oldest first, and throws behind them; without a limit it throws for every
-- place.
pub get_item-write_all :
    (n : ℕ) (messages : List Item) (i : ℕ)
    → get_item (write_all (new n) messages) i
      ≡ (if n == 0 then none else get_elem? (latest n messages) i)
unfolding new
get_item-write_all n messages i =
    let (v, kept) = write_all-latest (new n) messages [] (new-IsValid n) (ground arith) in
    let b = write_all (new n) messages in
    let limit : b.max_items ≡ n = max_items-write_all (new n) messages in
    elim (Bool-cases (n == 0)) [
      | inl free ↦ rw free (get_item_unlimited b i (ground (arith, limit, free)))
      | inr capped ↦ rw capped (
          get_item-contents b i v (ground (arith, limit, capped))
          ∙ ap (λ l. get_elem? l i) (kept ∙ rw capped refl))
    ]
