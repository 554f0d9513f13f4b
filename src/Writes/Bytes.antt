-- ===== src/Writes/Bytes.antt =====
-- The bytes of a write buffer (src/writes.rs).
use canvas_fuse.Prelude.{
  set, ℕ, ltb, zero, suc, ◌+◌, ◌-◌, ◌≡◌, ◌≤◌, refl, ◌∙◌, ap, subst, true, false, Option, none, some,
  [], ◌∷◌, ◌++◌, arith, nat_beq, length, min, if◌then◌else◌,
}
use canvas_fuse.Store.Move.{drop}
use canvas_fuse.Blobs.{Blob, take, slice}
use canvas_fuse.Writes.{
  resized, write_at, Disk, OpenWrite, Inner, ok, write_in, write, read_buffer, put_state,
  open_overlay, release,
}

-- The byte at a position.
unfoldable pub byte_at : ℕ → Blob → Option ℕ
byte_at n [] = none
byte_at zero (x ∷ xs) = some x
byte_at (suc n) (x ∷ xs) = byte_at n xs

byte_at-none : (i : ℕ) (xs : Blob) → length xs ≤ i → byte_at i xs ≡ none
unfolding byte_at
byte_at-none i [] le = refl
byte_at-none zero (x ∷ xs) le = ground (arith, le)
byte_at-none (suc i) (x ∷ xs) le = byte_at-none i xs (omega (arith, le))

byte_at-append :
    (i : ℕ) (xs ys : Blob)
    → byte_at i (xs ++ ys)
      ≡ (if ltb i (length xs) then byte_at i xs else byte_at (i - length xs) ys)
unfolding byte_at
byte_at-append i [] ys = ground arith
byte_at-append zero (x ∷ xs) ys = ground arith
byte_at-append (suc i) (x ∷ xs) ys = ground (arith, byte_at-append i xs ys)

byte_at-take :
    (i n : ℕ) (xs : Blob) → byte_at i (take n xs) ≡ (if ltb i n then byte_at i xs else none)
unfolding byte_at take
byte_at-take i zero xs = ground arith
byte_at-take i (suc n) [] = ground arith
byte_at-take zero (suc n) (x ∷ xs) = ground arith
byte_at-take (suc i) (suc n) (x ∷ xs) = ground (arith, byte_at-take i n xs)

byte_at-drop : (i n : ℕ) (xs : Blob) → byte_at i (drop n xs) ≡ byte_at (n + i) xs
unfolding byte_at drop
byte_at-drop i zero xs = ground arith
byte_at-drop i (suc n) [] = refl
byte_at-drop i (suc n) (x ∷ xs) =
    let moved : suc (n + i) ≡ suc n + i = omega arith in
    byte_at-drop i n xs ∙ ap (λ k. byte_at k (x ∷ xs)) moved

byte_at-resized :
    (i n : ℕ) (xs : Blob)
    → byte_at i (resized n xs)
      ≡ (if ltb i n then (if ltb i (length xs) then byte_at i xs else some 0) else none)
unfolding byte_at resized
byte_at-resized i zero xs = ground arith
byte_at-resized zero (suc n) [] = ground arith
byte_at-resized (suc i) (suc n) [] = ground (arith, byte_at-resized i n [])
byte_at-resized zero (suc n) (x ∷ xs) = ground arith
byte_at-resized (suc i) (suc n) (x ∷ xs) = ground (arith, byte_at-resized i n xs)

length-take : (n : ℕ) (xs : Blob) → n ≤ length xs → length (take n xs) ≡ n
unfolding take
length-take zero xs le = refl
length-take (suc n) [] le = ground (arith, le)
length-take (suc n) (x ∷ xs) le = ap suc (length-take n xs (omega (arith, le)))

length-resized : (n : ℕ) (xs : Blob) → length (resized n xs) ≡ n
unfolding resized
length-resized zero xs = refl
length-resized (suc n) [] = ap suc (length-resized n [])
length-resized (suc n) (x ∷ xs) = ap suc (length-resized n xs)

-- What a position has after the data went over the buffer.
abbrev pub overwritten : ℕ → ℕ → Blob → Blob → Option ℕ
overwritten i offset written buffer =
    if ltb i offset
    then (if ltb i (length buffer) then byte_at i buffer else some 0)
    else if ltb i (offset + length written)
    then byte_at (i - offset) written
    else byte_at i buffer

grown_at :
    (i end : ℕ) (buffer : Blob)
    → byte_at i (if ltb (length buffer) end then resized end buffer else buffer)
      ≡ (if ltb i (length buffer) then byte_at i buffer else if ltb i end then some 0 else none)
grown_at i end buffer = ground (arith, byte_at-resized i end buffer, byte_at-none i buffer)

grown_length :
    (end : ℕ) (buffer : Blob)
    → end ≤ length (if ltb (length buffer) end then resized end buffer else buffer)
grown_length end buffer = ground (arith, length-resized end buffer)

spliced :
    (i offset : ℕ) (written grown : Blob)
    → offset + length written ≤ length grown
    → byte_at i (take offset grown ++ (written ++ drop (offset + length written) grown)) ≡ (
        if ltb i offset
        then byte_at i grown
        else if ltb i (offset + length written)
        then byte_at (i - offset) written
        else byte_at i grown)
spliced i offset written grown le = ground (
  arith,
  byte_at-append i (take offset grown) (written ++ drop (offset + length written) grown),
  byte_at-take i offset grown,
  length-take offset grown,
  byte_at-append (i - offset) written (drop (offset + length written) grown),
  byte_at-drop (i - offset - length written) (offset + length written) grown,
  le,
)

-- After a write over a buffer, each position inside the data has the byte of the data; each other has what it
-- had, and 0 in the gap between the old end and the offset.
pub write_at-byte_at :
    (i offset : ℕ) (written buffer : Blob)
    → byte_at i (write_at offset written buffer) ≡ overwritten i offset written buffer
unfolding write_at
write_at-byte_at i offset written buffer =
    let end = offset + length written in
    spliced i offset written (if ltb (length buffer) end then resized end buffer else buffer)
      (grown_length end buffer)
    ∙ ground (arith, grown_at i (offset + length written) buffer, byte_at-none i buffer)

drop-append : (xs ys : Blob) → drop (length xs) (xs ++ ys) ≡ ys
unfolding drop
drop-append [] ys = refl
drop-append (x ∷ xs) ys = drop-append xs ys

take-append : (xs ys : Blob) → take (length xs) (xs ++ ys) ≡ xs
unfolding take
take-append [] ys = refl
take-append (x ∷ xs) ys = ap (λ zs. x ∷ zs) (take-append xs ys)

length-append : (xs ys : Blob) → length (xs ++ ys) ≡ length xs + length ys
length-append [] ys = omega arith
length-append (x ∷ xs) ys = omega (arith, length-append xs ys)

-- A slice inside the bytes.
slice-inside :
    (first written rest : Blob)
    → slice (length first) (length written) (first ++ (written ++ rest)) ≡ written
unfolding slice
slice-inside first written rest =
    let all = first ++ (written ++ rest) in
    let l1 = length-append first (written ++ rest) in
    let l2 = length-append written rest in
    let start : min (length first) (length all) ≡ length first = omega (arith, l1) in
    let size : min (length first + length written) (length all) - length first ≡ length written =
      omega (arith, l1, l2) in
    rw (slice, start, size, drop-append first (written ++ rest)) (take-append written rest)

read-write_at :
    (offset : ℕ) (written buffer : Blob)
    → slice offset (length written) (write_at offset written buffer) ≡ written
unfolding write_at
read-write_at offset written buffer =
    let end = offset + length written in
    let grown = if ltb (length buffer) end then resized end buffer else buffer in
    subst
      (λ k. slice k (length written) (take offset grown ++ (written ++ drop end grown)) ≡ written)
      (length-take offset grown (omega (arith, grown_length end buffer)))
      (slice-inside (take offset grown) written (drop end grown))

module _ {F D : Type 0} (disk : Disk F D) where
  set_same :
      (ino : ℕ) (v : Option (OpenWrite F)) (f : ℕ → Option (OpenWrite F)) → set ino v f ino ≡ v
  unfolding set
  set_same ino v f = ground arith

  -- A write to a file that is held in a buffer succeeds with the number of bytes, wherever it begins, and a
  -- read at the same place then gives the bytes back.
  pub read_buffer-write :
      (ino offset : ℕ) (written : Blob) (inner : Inner F D) (state : OpenWrite F)
      → inner.states ino ≡ some state
      → state.disk ≡ none
      → ((write disk ino offset written inner).0 ≡ ok (length written))
        × (read_buffer disk ino offset (length written) (write disk ino offset written inner).1
            ≡ some (ok written))
  unfolding write write_in read_buffer put_state
  read_buffer-write ino offset written inner state there buffered =
      let after : OpenWrite F = record state {
        buffer = write_at offset written state.buffer;
        dirty = true;
      } in
      let goes : write disk ino offset written inner
          ≡ (ok (length written), put_state disk ino (some after) inner) =
        rw (write, there) (ap (λ h. write_in disk h ino offset written state inner) buffered) in
      let stays : (put_state disk ino (some after) inner).states ino ≡ some after =
        (set_same ino (some after) inner.states) in
      rw (goes)
        (refl, rw (read_buffer, stays, buffered, read-write_at offset written state.buffer) refl)

  release-held :
      (ino : ℕ) (inner : Inner F D) (state : OpenWrite F)
      → inner.states ino ≡ some state
      → nat_beq (state.refs - 1) 0 ≡ false
      → release disk ino inner
        ≡ put_state disk ino (some (record state { refs = state.refs - 1 })) inner
  unfolding release
  release-held ino inner state there held = rw (release, there, held) refl

  -- Who opens an open file and closes it again leaves all write states as they were: the file stays open for
  -- those who have it open.
  pub release-open_overlay :
      (ino i : ℕ) (inner : Inner F D) (state : OpenWrite F)
      → inner.states ino ≡ some state
      → 1 ≤ state.refs
      → (release disk ino (open_overlay disk ino false inner).1).states i ≡ inner.states i
  unfolding put_state open_overlay set
  release-open_overlay ino i inner state there shared =
      let more : OpenWrite F = record state { refs = state.refs + 1 } in
      let opens : (open_overlay disk ino false inner).1 ≡ put_state disk ino (some more) inner =
        rw (open_overlay, there) refl in
      let back : state.refs + 1 - 1 ≡ state.refs = omega arith in
      let held : nat_beq state.refs 0 ≡ false = ground (arith, shared) in
      let closes : release disk ino (put_state disk ino (some more) inner)
          ≡ put_state disk ino (some (record state { refs = state.refs + 1 - 1 }))
              (put_state disk ino (some more) inner) =
        release-held ino (put_state disk ino (some more) inner) more
          (set_same ino (some more) inner.states) (ground (arith, back, held)) in
      rw (opens, closes, back) (ground (arith, there))
