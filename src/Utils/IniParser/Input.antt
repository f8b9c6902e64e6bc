-- ===== src/Utils/IniParser/Input.antt =====
-- Whole runs of next() over an input.
use mathlib.Core.Path.{subst₂}
use libhif.Base.{
  ℕ, zero, suc, ◌<◌, some, [], ◌++◌, Bytes, ◌≡◌, ◌≢◌, ◌⊎◌, inl, inr, refl, ap, ◌∙◌, arith, length,
  length-append,
}
use libhif.Utils.IniParser.{ItemType, end_of_input, Error, ok, err, IniParser, init, next}
use libhif.Utils.IniParser.Lines.{unread, strip_bom, Inv, visible}
use libhif.Utils.IniParser.RawItems.{Took, Answers, next-Answers}

-- next() is called until it reports the end of the input; `raws` joins the raw items.
pub data Reads : IniParser → Bytes → Type 0 where
  stop : {p q : IniParser} → next p ≡ some (ok (end_of_input, q)) → Reads p []
  item :
      {p q : IniParser} {t : ItemType} {raws : Bytes}
      → next p ≡ some (ok (t, q))
      → t ≢ end_of_input
      → Reads q raws
      → Reads p (q.raw_item ++ raws)

-- Some call throws.
pub data Throws : IniParser → Type 0 where
  here : {p : IniParser} {e : Error} {n : ℕ} → next p ≡ some (err e n) → Throws p
  later : {p q : IniParser} {t : ItemType} → next p ≡ some (ok (t, q)) → Throws q → Throws p

pub init-Inv : (input : Bytes) → Inv (init input)
unfolding init
init-Inv input = ground arith

pub init_section : (input : Bytes) → (init input).section ≡ []
unfolding init
init_section input = refl

pub init-visible : (input : Bytes) → visible (init input) ≡ strip_bom input
unfolding init
init-visible input = refl

Answers-Took : (p q : IniParser) (t : ItemType) → Answers p (some (ok (t, q))) → Took p t q
Answers-Took p q t (inl (e, n, is)) = absurd cc
Answers-Took p q t (inr (t', q', is, took)) =
    let et : t' ≡ t = cc in let eq : q' ≡ q = cc in subst₂ (Took p) et eq took

next-Took :
    (p q : IniParser) (t : ItemType)
    → Inv p
    → next p ≡ some (ok (t, q))
    → Took (record p { raw_item = [] }) t q
next-Took p q t v e = Answers-Took _ q t (rw e at (next-Answers p v))

pub unread-visible : (p : IniParser) → p.line_number ≢ 0 → visible p ≡ unread p
unread-visible p h = ground arith

Reads-visible : {p : IniParser} {raws : Bytes} → Inv p → Reads p raws → raws ≡ visible p
Reads-visible {p} v (stop {q = q} e) =
    let took = next-Took p q end_of_input v e in
    let (raw, left) = took.at_end refl in rw (raw, left) at took.splits
Reads-visible {p} v (item {q = q} {t = t} {raws = raws} e more r) =
    let took = next-Took p q t v e in
    ap (λ l. q.raw_item ++ l) (Reads-visible took.inv r ∙ unread-visible q took.number)
    ∙ took.splits

-- A run that throws no exception has read every byte of the input exactly once and in order,
-- but for a byte order mark at the start.
pub Reads-init : (input : Bytes) (raws : Bytes) → Reads (init input) raws → raws ≡ strip_bom input
unfolding init
Reads-init input raws r = Reads-visible (init-Inv input) r

at_end_or_not : (t : ItemType) → (t ≡ end_of_input) ⊎ (t ≢ end_of_input)
at_end_or_not end_of_input = inl refl
at_end_or_not _ = inr (λ e. cc)

pub shorter :
    (p q : IniParser) (t : ItemType)
    → Took (record p { raw_item = [] }) t q
    → t ≢ end_of_input
    → length (visible q) < length (visible p)
shorter p q t took more =
    let joined = ap length took.splits in
    let filled = took.before_end more in
    rw (unread-visible q took.number) (ground (arith, length-append q.raw_item (unread q)))

run_within :
    (n : ℕ) (p : IniParser)
    → Inv p
    → length (visible p) < n
    → ((raws : Bytes) × Reads p raws) ⊎ Throws p
run_within zero p v h = absurd (omega arith)
run_within (suc n) p v h = elim (next-Answers p v) [
  | inl (e, k, thrown) ↦ inr (here thrown)
  | inr (t, q, is, took) ↦ elim (at_end_or_not t) [
    | inl end ↦ inl ([], stop (rw end at is))
    | inr more ↦ elim (run_within n q took.inv (omega (arith, shorter p q t took more))) [
      | inl (raws, reads) ↦ inl (q.raw_item ++ raws, item is more reads)
      | inr thrown ↦ inr (later is thrown)
    ]
  ]
]

-- Every input is read to its end after finitely many calls, or some call throws.
pub Reads-or-Throws :
    (input : Bytes) → ((raws : Bytes) × Reads (init input) raws) ⊎ Throws (init input)
Reads-or-Throws input =
    run_within (suc (length (visible (init input)))) (init input) (init-Inv input) (omega arith)
