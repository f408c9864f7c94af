-- ===== src/Spv/Witness/Skip.antt =====
-- Transactions as data, their bytes, and that the loops of `strip_witness` skip exactly those bytes.
use pyrxd.Common.{
  ℕ, ◌+◌, ◌^◌, ◌<◌, ◌≡◌, ap, ◌∙◌, arith, false, ltb, length, length-append, List, [], ◌∷◌, ◌++◌, ok,
}
use mathlib.Core.Path.{subst}
use pyrxd.Common.Bytes.{append_assoc}
use pyrxd.Spv.Witness.{
  read_varint, varint_bytes, skip_inputs, skip_outputs, skip_items, skip_stacks,
}
use pyrxd.Spv.Witness.Cursor.{Stands, Stands-append, read_varint-varint_bytes}

pub record TxIn : Type 0 where
  pub prevout : List ℕ
  pub script : List ℕ
  pub sequence : List ℕ

pub record TxOut : Type 0 where
  pub value : List ℕ
  pub script : List ℕ

-- The fields of fixed size have it, and a script's length fits its prefix.
pub record IsTxIn (i : TxIn) : Type 0 where
  pub prevout_36 : length i.prevout ≡ 36
  pub sequence_4 : length i.sequence ≡ 4
  pub script_fits : length i.script < 2 ^ 64

pub record IsTxOut (o : TxOut) : Type 0 where
  pub value_8 : length o.value ≡ 8
  pub script_fits : length o.script < 2 ^ 64

-- A string after its length.
abbrev pub prefixed : List ℕ → List ℕ
prefixed bs = varint_bytes (length bs) ++ bs

abbrev pub input_bytes : List TxIn → List ℕ
input_bytes [] = []
input_bytes (i ∷ is) = i.prevout ++ (prefixed i.script ++ (i.sequence ++ input_bytes is))

abbrev pub output_bytes : List TxOut → List ℕ
output_bytes [] = []
output_bytes (o ∷ os) = o.value ++ (prefixed o.script ++ output_bytes os)

abbrev pub item_bytes : List (List ℕ) → List ℕ
item_bytes [] = []
item_bytes (w ∷ ws) = prefixed w ++ item_bytes ws

abbrev pub stack_bytes : List (List (List ℕ)) → List ℕ
stack_bytes [] = []
stack_bytes (ws ∷ wss) = varint_bytes (length ws) ++ (item_bytes ws ++ stack_bytes wss)

abbrev pub AllIn : List TxIn → Type 0
AllIn [] = Unit
AllIn (i ∷ is) = IsTxIn i × AllIn is

abbrev pub AllOut : List TxOut → Type 0
AllOut [] = Unit
AllOut (o ∷ os) = IsTxOut o × AllOut os

abbrev pub AllFit : List (List ℕ) → Type 0
AllFit [] = Unit
AllFit (w ∷ ws) = (length w < 2 ^ 64) × AllFit ws

abbrev pub AllStacks : List (List (List ℕ)) → Type 0
AllStacks [] = Unit
AllStacks (ws ∷ wss) = (length ws < 2 ^ 64) × AllFit ws × AllStacks wss

pub fits-Stands :
    {raw : List ℕ} {pos : ℕ} {tail : List ℕ} → Stands raw pos tail → ltb (length raw) pos ≡ false
fits-Stands s = ground (arith, s.size)

-- One field further, of a known size.
pub field :
    {raw : List ℕ} {pos : ℕ} (n : ℕ) (front tail : List ℕ)
    → length front ≡ n
    → Stands raw pos (front ++ tail)
    → Stands raw (pos + n) tail
field {raw = raw} {pos = pos} n front tail l s =
    subst (λ k. Stands raw (pos + k) tail) l (Stands-append front tail s)

pub reassoc :
    {raw : List ℕ} {pos : ℕ} (a b c : List ℕ)
    → Stands raw pos ((a ++ b) ++ c)
    → Stands raw pos (a ++ (b ++ c))
reassoc {raw = raw} {pos = pos} a b c s = subst (λ t. Stands raw pos t) (append_assoc a b c) s

-- The length and the string of a prefixed field.
pub read_prefix :
    {raw : List ℕ} {pos : ℕ} (bs tail : List ℕ)
    → length bs < 2 ^ 64
    → Stands raw pos (prefixed bs ++ tail)
    → read_varint raw pos ≡ ok (length bs, pos + length (varint_bytes (length bs)))
read_prefix bs tail h s =
    read_varint-varint_bytes (length bs) (bs ++ tail) h
      (reassoc (varint_bytes (length bs)) bs tail s)

pub after_prefix :
    {raw : List ℕ} {pos : ℕ} (bs tail : List ℕ)
    → Stands raw pos (prefixed bs ++ tail)
    → Stands raw (pos + length (varint_bytes (length bs)) + length bs) tail
after_prefix bs tail s = Stands-append bs tail (
    Stands-append (varint_bytes (length bs)) (bs ++ tail)
      (reassoc (varint_bytes (length bs)) bs tail s))

pub skip_items-item_bytes :
    {raw : List ℕ} (ws : List (List ℕ)) (pos : ℕ) (tail : List ℕ)
    → AllFit ws
    → Stands raw pos (item_bytes ws ++ tail)
    → skip_items (length ws) raw pos ≡ ok (pos + length (item_bytes ws))
unfolding skip_items
skip_items-item_bytes [] pos tail k s = ap ok (omega arith)
skip_items-item_bytes {raw = raw} (w ∷ ws) pos tail (kw, kws) s =
    rw (read_prefix w _ kw here, fits-Stands there)
      (skip_items-item_bytes ws _ tail kws there ∙ ap ok total)
  where
    here : Stands raw pos (prefixed w ++ (item_bytes ws ++ tail))
    here = reassoc (prefixed w) (item_bytes ws) tail s

    there : Stands raw (pos + length (varint_bytes (length w)) + length w) (item_bytes ws ++ tail)
    there = after_prefix w _ here

    total :
        pos + length (varint_bytes (length w)) + length w + length (item_bytes ws)
        ≡ pos + length (prefixed w ++ item_bytes ws)
    total = omega (
      arith,
      length-append (prefixed w) (item_bytes ws),
      length-append (varint_bytes (length w)) w,
    )

pub skip_stacks-stack_bytes :
    {raw : List ℕ} (wss : List (List (List ℕ))) (pos : ℕ) (tail : List ℕ)
    → AllStacks wss
    → Stands raw pos (stack_bytes wss ++ tail)
    → skip_stacks (length wss) raw pos ≡ ok (pos + length (stack_bytes wss))
unfolding skip_stacks
skip_stacks-stack_bytes [] pos tail k s = ap ok (omega arith)
skip_stacks-stack_bytes {raw = raw} (ws ∷ wss) pos tail (count, kws, kwss) s =
    rw (read_varint-varint_bytes (length ws) _ count here, skip_items-item_bytes ws _ _ kws items)
      (skip_stacks-stack_bytes wss _ tail kwss there ∙ ap ok total)
  where
    here : Stands raw pos (varint_bytes (length ws) ++ ((item_bytes ws ++ stack_bytes wss) ++ tail))
    here = reassoc (varint_bytes (length ws)) (item_bytes ws ++ stack_bytes wss) tail s

    items :
        Stands raw
          (pos + length (varint_bytes (length ws)))
          (item_bytes ws ++ (stack_bytes wss ++ tail))
    items =
        reassoc (item_bytes ws) (stack_bytes wss) tail
          (Stands-append (varint_bytes (length ws)) _ here)

    there :
        Stands raw
          (pos + length (varint_bytes (length ws)) + length (item_bytes ws))
          (stack_bytes wss ++ tail)
    there = Stands-append (item_bytes ws) _ items

    total :
        pos + length (varint_bytes (length ws)) + length (item_bytes ws) + length (stack_bytes wss)
        ≡ pos + length (varint_bytes (length ws) ++ (item_bytes ws ++ stack_bytes wss))
    total = omega (
      arith,
      length-append (varint_bytes (length ws)) (item_bytes ws ++ stack_bytes wss),
      length-append (item_bytes ws) (stack_bytes wss),
    )

-- The script of the first output that stands here, behind its value.
pub at_script :
    {raw : List ℕ} {pos : ℕ} (o : TxOut) (os : List TxOut) (tail : List ℕ)
    → IsTxOut o
    → Stands raw pos (output_bytes (o ∷ os) ++ tail)
    → Stands raw (pos + 8) (prefixed o.script ++ (output_bytes os ++ tail))
at_script o os tail k s =
    reassoc (prefixed o.script) (output_bytes os) tail
      (field 8 o.value _ k.value_8 (reassoc o.value (prefixed o.script ++ output_bytes os) tail s))

pub skip_outputs-output_bytes :
    {raw : List ℕ} (os : List TxOut) (pos : ℕ) (tail : List ℕ)
    → AllOut os
    → Stands raw pos (output_bytes os ++ tail)
    → skip_outputs (length os) raw pos ≡ ok (pos + length (output_bytes os))
unfolding skip_outputs
skip_outputs-output_bytes [] pos tail k s = ap ok (omega arith)
skip_outputs-output_bytes {raw = raw} (o ∷ os) pos tail (k, ks) s =
    rw (fits-Stands script, read_prefix o.script _ k.script_fits script, fits-Stands there)
      (skip_outputs-output_bytes os _ tail ks there ∙ ap ok total)
  where
    script : Stands raw (pos + 8) (prefixed o.script ++ (output_bytes os ++ tail))
    script = at_script o os tail k s

    there :
        Stands raw
          (pos + 8 + length (varint_bytes (length o.script)) + length o.script)
          (output_bytes os ++ tail)
    there = after_prefix o.script _ script

    total :
        pos
          + 8
          + length (varint_bytes (length o.script))
          + length o.script
          + length (output_bytes os)
        ≡ pos + length (o.value ++ (prefixed o.script ++ output_bytes os))
    total = omega (
      arith,
      k.value_8,
      length-append o.value (prefixed o.script ++ output_bytes os),
      length-append (prefixed o.script) (output_bytes os),
      length-append (varint_bytes (length o.script)) o.script,
    )

pub skip_inputs-input_bytes :
    {raw : List ℕ} (is : List TxIn) (pos : ℕ) (tail : List ℕ)
    → AllIn is
    → Stands raw pos (input_bytes is ++ tail)
    → skip_inputs (length is) raw pos ≡ ok (pos + length (input_bytes is))
unfolding skip_inputs
skip_inputs-input_bytes [] pos tail k s = ap ok (omega arith)
skip_inputs-input_bytes {raw = raw} (i ∷ is) pos tail (k, ks) s =
    rw (fits-Stands script, read_prefix i.script _ k.script_fits script, fits-Stands there)
      (skip_inputs-input_bytes is _ tail ks there ∙ ap ok total)
  where
    script : Stands raw (pos + 36) (prefixed i.script ++ ((i.sequence ++ input_bytes is) ++ tail))
    script = reassoc (prefixed i.script) (i.sequence ++ input_bytes is) tail (
        field 36 i.prevout _ k.prevout_36
          (reassoc i.prevout (prefixed i.script ++ (i.sequence ++ input_bytes is)) tail s))

    there :
        Stands raw
          (pos + 36 + length (varint_bytes (length i.script)) + length i.script + 4)
          (input_bytes is ++ tail)
    there =
        field 4 i.sequence _ k.sequence_4
          (reassoc i.sequence (input_bytes is) tail (after_prefix i.script _ script))

    total :
        pos
          + 36
          + length (varint_bytes (length i.script))
          + length i.script
          + 4
          + length (input_bytes is)
        ≡ pos + length (i.prevout ++ (prefixed i.script ++ (i.sequence ++ input_bytes is)))
    total = omega (
      arith,
      k.prevout_36,
      k.sequence_4,
      length-append i.prevout (prefixed i.script ++ (i.sequence ++ input_bytes is)),
      length-append (prefixed i.script) (i.sequence ++ input_bytes is),
      length-append (varint_bytes (length i.script)) i.script,
      length-append i.sequence (input_bytes is),
    )
