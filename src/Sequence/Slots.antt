-- ===== src/Sequence/Slots.antt =====
-- The logical blocks of a sequence (`_append_tokens_to_blocks` of vllm_blend/vllm/sequence.py).
pub mod Filled
use mathlib.Core.List.{append_assoc, append-nil}
use cache_blend.Prelude.{
  ℕ, zero, suc, ◌+◌, ◌-◌, ◌*◌, ◌<◌, ◌≤◌, ◌≡◌, refl, sym, ap, ◌∙◌, ◌⊎◌, inl, inr, true, false, some,
  List, [], ◌∷◌, ◌++◌, ltb, length, take, drop, length-append, length-take, length-drop,
  take-append-drop, Result, ok, Bool-cases, last?, last?-snoc, set_last-snoc, arith,
}
use cache_blend.Prelude.Int.{ℤ}
use cache_blend.Block.{
  LogicalTokenBlock, new_logical_block, get_num_empty_slots, is_full, get_token_ids,
}
use cache_blend.Block.Logical.{
  IsSound, appended, append_tokens_fits, appended-IsSound, get_token_ids-appended,
  length-get_token_ids, new_logical_block-IsSound,
}
use native.Mathlib.Nat.{div-eq_of_lt-le}
use cache_blend.Utils.{cdiv}
use cache_blend.Sequence.{append_logical_block, ensure_room, fill_last, append_loop}
unfoldable pub use Filled.*

-- The blocks that the first half of a round leaves: the last one has room.
record Roomy (size : ℕ) (held : List ℤ) (bs : List LogicalTokenBlock) : Type 0 where
  front : List LogicalTokenBlock
  back : LogicalTokenBlock
  split : bs ≡ front ++ back ∷ []
  full : AllFull size 0 front
  block : IsBlock size (length front) back
  room : back.num_tokens < size
  holds : contents front ++ get_token_ids back ≡ held

fresh :
    (size : ℕ) (bs : List LogicalTokenBlock)
    → 0 < size
    → AllFull size 0 bs
    → Roomy size (contents bs) (append_logical_block size bs)
unfolding append_logical_block new_logical_block get_token_ids
fresh size bs pos f = record {
  front = bs;
  back = new_logical_block (length bs) size;
  split = refl;
  full = f;
  block = (refl, refl, new_logical_block-IsSound (length bs) size);
  room = pos;
  holds = append-nil (contents bs);
}

room_after :
    (size : ℕ) (bs : List LogicalTokenBlock) (b : LogicalTokenBlock)
    → last? bs ≡ some b
    → (is_full b ≡ false → ensure_room size bs ≡ bs)
      × (is_full b ≡ true → ensure_room size bs ≡ append_logical_block size bs)
unfolding ensure_room
room_after size bs b e = (λ h. rw (e, ensure_room, h), λ h. rw (e, ensure_room, h))

room_start : (size : ℕ) → 0 < size → ensure_room size [] ≡ append_logical_block size []
unfolding ensure_room append_logical_block is_full new_logical_block
room_start size pos = ground arith

full_num : (b : LogicalTokenBlock) → is_full b ≡ true → b.num_tokens ≡ b.block_size
unfolding is_full
full_num b h = ground arith

room_num : (b : LogicalTokenBlock) → IsSound b → is_full b ≡ false → b.num_tokens < b.block_size
unfolding is_full
room_num b s h = ground (arith, s.1)

ensure_room-Roomy :
    (size : ℕ) (bs : List LogicalTokenBlock)
    → 0 < size
    → IsFilled size bs
    → Roomy size (contents bs) (ensure_room size bs)
ensure_room-Roomy size bs pos (inl e) = rw (e, room_start size pos) (fresh size [] pos tt)
ensure_room-Roomy size bs pos (inr t) = elim (Bool-cases (is_full t.back)) [
  | inl h ↦ rw ((room_after size bs t.back at_end).1 h) (fresh size bs pos (all_full h))
  | inr h ↦ rw ((room_after size bs t.back at_end).0 h) (record {
    front = t.front;
    back = t.back;
    split = t.split;
    full = t.full;
    block = t.block;
    room = omega (arith, room_num t.back t.block.2 h, t.block.1);
    holds = rw (t.split, contents-snoc t.front t.back);
  })
]
  where
    at_end : last? bs ≡ some t.back
    at_end = rw t.split (last?-snoc t.front t.back)

    all_full : is_full t.back ≡ true → AllFull size 0 bs
    all_full h = rw t.split (
        AllFull-snoc size 0 t.front t.back t.full (t.block.0 ∙ omega arith, t.block.1, t.block.2)
          (full_num t.back h ∙ t.block.1))

-- What a round does: some tokens move into the blocks, in order.
record Round (size : ℕ) (held rest : List ℤ) (r : Result (List LogicalTokenBlock × ℕ))
    : Type 0 where
  blocks : List LogicalTokenBlock
  step : ℕ
  returns : r ≡ ok (blocks, step)
  moves : 0 < step
  filled : IsFilled size blocks
  gains : contents blocks ≡ held ++ take step rest

fill_last-Round :
    (size : ℕ) (held rest : List ℤ) (bs : List LogicalTokenBlock)
    → 0 < length rest
    → Roomy size held bs
    → Round size held rest (fill_last bs rest)
unfolding fill_last
fill_last-Round size held rest bs some_left y = record {
  blocks = y.front ++ appended y.back new ∷ [];
  step = slots;
  returns = rw (
    y.split,
    last?-snoc y.front y.back,
    append_tokens_fits y.back new fits,
    set_last-snoc y.front y.back (appended y.back new),
  );
  moves = room;
  filled = inr (record {
    front = y.front;
    back = appended y.back new;
    split = refl;
    full = y.full;
    block = (y.block.0, y.block.1, appended-IsSound y.back new y.block.2 fits);
    used = omega (arith, length-take slots rest, room);
  });
  gains =
      contents-snoc y.front (appended y.back new)
      ∙ ap (◌++◌ (contents y.front)) (get_token_ids-appended y.back new y.block.2)
      ∙ sym (append_assoc (contents y.front) (get_token_ids y.back) new)
      ∙ ap (λ (l : List ℤ). l ++ new) y.holds;
}
  where
    slots : ℕ
    slots = get_num_empty_slots y.back

    new : List ℤ
    new = take slots rest

    fits : length new ≤ get_num_empty_slots y.back
    fits = omega (arith, length-take slots rest)

    room : 0 < slots
    room = unfold get_num_empty_slots in omega (arith, y.room, y.block.1)

drop-drop {ℓ} : {A : Type ℓ} (m n : ℕ) (xs : List A) → drop (m + n) xs ≡ drop n (drop m xs)
drop-drop zero n xs = let e : 0 + n ≡ n = omega arith in rw e
drop-drop (suc m) zero [] = let e : suc m + 0 ≡ suc m = omega arith in rw e
drop-drop (suc m) (suc n) [] = let e : suc m + suc n ≡ suc (m + suc n) = omega arith in rw e
drop-drop (suc m) n (x ∷ xs) =
    let e : suc m + n ≡ suc (m + n) = omega arith in rw e (drop-drop m n xs)

drop_past {ℓ} : {A : Type ℓ} (n : ℕ) (xs : List A) → length xs ≤ n → drop n xs ≡ []
drop_past zero [] h = refl
drop_past zero (x ∷ xs) h = absurd (omega arith)
drop_past (suc n) [] h = refl
drop_past (suc n) (x ∷ xs) h = drop_past n xs (omega arith)

rejoin {ℓ} :
    {A : Type ℓ} (held ids : List A) (cursor step : ℕ)
    → (held ++ take step (drop cursor ids)) ++ drop (cursor + step) ids ≡ held ++ drop cursor ids
rejoin held ids cursor step = rw (drop-drop cursor step ids, append_assoc, take-append-drop)

-- The blocks that the loop returns.
pub record Filling (size : ℕ) (held : List ℤ) (r : Result (List LogicalTokenBlock)) : Type 0 where
  pub blocks : List LogicalTokenBlock
  pub returns : r ≡ ok blocks
  pub filled : IsFilled size blocks
  pub holds : contents blocks ≡ held

-- With a positive block size and as many rounds as tokens the loop ends, every block but the last is
-- full and numbered by its place, and the new tokens follow the old ones.
pub append_loop-Filling :
    (fuel size : ℕ) (ids : List ℤ) (cursor : ℕ) (bs : List LogicalTokenBlock)
    → 0 < size
    → length ids ≤ cursor + fuel
    → IsFilled size bs
    → Filling size (contents bs ++ drop cursor ids) (append_loop fuel size ids cursor bs)
unfolding append_loop
append_loop-Filling zero size ids cursor bs pos enough f = record {
  blocks = bs;
  returns = ground arith;
  filled = f;
  holds = rw (drop_past cursor ids (omega arith)) (sym (append-nil (contents bs)));
}
append_loop-Filling (suc fuel) size ids cursor bs pos enough f =
    elim (Bool-cases (ltb cursor (length ids))) [
      | inr done ↦ record {
        blocks = bs;
        returns = rw done;
        filled = f;
        holds = rw (drop_past cursor ids (ground arith)) (sym (append-nil (contents bs)));
      }
      | inl more ↦
          let y : Round size (contents bs) (drop cursor ids) _ =
            fill_last-Round size (contents bs) (drop cursor ids) _
              (ground (arith, length-drop cursor ids)) (ensure_room-Roomy size bs pos f) in
          let z : Filling _ _ _ =
            append_loop-Filling fuel size ids (cursor + y.step) y.blocks pos
              (omega (arith, y.moves)) y.filled in
          record {
            blocks = z.blocks;
            returns = rw (more, y.returns) z.returns;
            filled = z.filled;
            holds =
                z.holds
                ∙ ap (λ (l : List ℤ). l ++ drop (cursor + y.step) ids) y.gains
                ∙ rejoin (contents bs) ids cursor y.step;
          }
    ]

cdiv_unique : (a n size : ℕ) → 0 < size → n * size < a + size → a ≤ n * size → cdiv a size ≡ n
unfolding cdiv
cdiv_unique a n size pos lo hi = div-eq_of_lt-le size {m = a + size - 1} (omega arith) (omega arith)

-- A sequence of filled blocks is as short as it can be.
pub length-IsFilled :
    (size : ℕ) (bs : List LogicalTokenBlock)
    → 0 < size
    → IsFilled size bs
    → length bs ≡ cdiv (length (contents bs)) size
unfolding contents
length-IsFilled size bs pos (inl e) =
    rw e (sym (cdiv_unique 0 0 size pos (omega arith) (omega arith)))
length-IsFilled size bs pos (inr t) = sym (
    cdiv_unique _ (length bs) size pos (rw (blocks, tokens) (omega (arith, t.used)))
      (rw (blocks, tokens) (omega (arith, t.block.1, t.block.2.1))))
  where
    blocks : length bs ≡ length t.front + 1
    blocks = rw t.split (omega (arith, length-append t.front (t.back ∷ [])))

    tokens : length (contents bs) ≡ length t.front * size + t.back.num_tokens
    tokens =
        rw (t.split, contents-snoc t.front t.back)
          (omega (
            arith,
            length-append (contents t.front) (get_token_ids t.back),
            length-contents_full size 0 t.front t.full,
            length-get_token_ids t.back t.block.2,
          ))
