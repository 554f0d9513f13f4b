-- ===== src/Writes.antt =====
-- The write buffers of the file system layer (src/writes.rs): the states of the open files and the files that
-- are created and have no document yet. The files of a mirror are written in place, through `Disk`.
pub mod Bytes
pub mod Owned
use canvas_fuse.Prelude.{
  ℕ, zero, suc, ◌+◌, ◌-◌, Bool, true, false, ◌&&◌, not, Option, none, some, List, [], ◌∷◌, ◌++◌,
  Text, text_eq, ◌==◌, nat_beq, is_some, set, length, ltb, max, get_or, if◌then◌else◌,
}
use canvas_fuse.Store.Move.{drop}
use canvas_fuse.Blobs.{Blob, take, slice}

-- The texts of `io` are dropped.
pub data WriteError : Type 0 where
  not_permitted : WriteError
  not_found : WriteError
  exists : WriteError
  not_empty : WriteError
  cross_dir : WriteError
  io : WriteError

pub data WResult (A : Type 0) : Type 0 where
  ok : A → WResult A
  err : WriteError → WResult A

pub data FlushTarget : Type 0 where
  existing : (ctx : Text) (doc_id : ℕ) → FlushTarget
  create : (ctx dir : Text) (dir_ino : ℕ) (name : Text) → FlushTarget
  ws_existing : (tree_name tree_id tree_type path : Text) (doc_id : ℕ) → FlushTarget
  home_file : (path : Text) (dir_ino : ℕ) (name : Text) → FlushTarget
  ws_create : (tree_name tree_id tree_type path : Text) (dir_ino : ℕ) (name : Text) → FlushTarget

-- Open files of the operating system: `F` a handle, `D` the disk. `none` and `false` are its errors.
pub record Disk (F D : Type 0) : Type 0 where
  pub len : F → D → Option ℕ
  pub set_len : F → ℕ → D → Bool × D
  pub write_all_at : F → Blob → ℕ → D → Bool × D
  pub read_at : F → ℕ → ℕ → D → Option Blob

pub record OpenWrite (F : Type 0) : Type 0 where
  pub buffer : Blob
  pub disk : Option F
  pub unlinked : Bool
  pub dirty : Bool
  pub refs : ℕ
  pub target : FlushTarget

-- A pending create: its directory, its name and its time.
pub record Pending : Type 0 where
  pub dir_ino : ℕ
  pub name : Text
  pub mtime : ℕ

-- `Inner`, with the disk, and the paths that the mirror was told of at the close.
pub record Inner (F D : Type 0) : Type 0 where
  pub states : ℕ → Option (OpenWrite F)
  pub overlay : ℕ → Option Pending
  pub overlay_names : ℕ → Text → Option ℕ
  pub next_overlay_ino : ℕ
  pub files : D
  pub mirrored : Bool
  pub closed : List Text

-- The numbers of pending creates lie far above those of the tree.
abbrev pub first_overlay_ino : ℕ
first_overlay_ino = 281474976710656

unfoldable pub new : {F D : Type 0} → D → Bool → Inner F D
new files mirrored = record {
  states = λ ino. none;
  overlay = λ ino. none;
  overlay_names = λ d n. none;
  next_overlay_ino = first_overlay_ino;
  files = files;
  mirrored = mirrored;
  closed = [];
}

pub record OverlayEntry : Type 0 where
  pub ino : ℕ
  pub dir_ino : ℕ
  pub name : Text
  pub size : ℕ
  pub mtime : ℕ

-- `Vec::resize(size, 0)`.
unfoldable pub resized : ℕ → Blob → Blob
resized zero xs = []
resized (suc n) [] = 0 ∷ resized n []
resized (suc n) (x ∷ xs) = x ∷ resized n xs

-- The buffer grows to the end of the bytes, which go over what is there.
unfoldable pub write_at : ℕ → Blob → Blob → Blob
unfolding resized take drop
write_at offset bytes buffer =
    let end = offset + length bytes in
    let grown = if ltb (length buffer) end then resized end buffer else buffer in
    take offset grown ++ (bytes ++ drop end grown)

module _ {F D : Type 0} (disk : Disk F D) where
  unfoldable pub size : OpenWrite F → D → ℕ
  size state files = elim state.disk [
    | none ↦ length state.buffer
    | some f ↦ get_or (disk.len f files) (length state.buffer)
  ]

  unfoldable pub put_state : ℕ → Option (OpenWrite F) → Inner F D → Inner F D
  put_state ino state inner = record inner { states = set ino state inner.states }

  unfoldable pub settle_io :
      {A : Type 0} → ℕ → OpenWrite F → A → Bool × D → Inner F D → WResult A × Inner F D
  settle_io ino state value (true, files) inner = (
    ok value,
    put_state ino (some (record state { dirty = true })) (record inner { files = files }),
  )
  settle_io ino state value (false, files) inner =
      (err io, put_state ino (some state) (record inner { files = files }))

  unfoldable pub resize_at : Option F → ℕ → OpenWrite F → ℕ → Inner F D → WResult Unit × Inner F D
  resize_at (some f) ino state n inner = settle_io ino state tt (disk.set_len f n inner.files) inner
  resize_at none ino state n inner = (
    ok tt,
    put_state ino (some (record state { buffer = resized n state.buffer; dirty = true })) inner,
  )

  unfoldable pub resize : ℕ → OpenWrite F → ℕ → Inner F D → WResult Unit × Inner F D
  resize ino state n inner = resize_at state.disk ino state n inner

  unfoldable pub overlay_attr : ℕ → Inner F D → Option OverlayEntry
  overlay_attr ino inner = elim (inner.overlay ino) [
    | none ↦ none
    | some p ↦ some (record {
      ino = ino;
      dir_ino = p.dir_ino;
      name = p.name;
      size = elim (inner.states ino) [ none ↦ 0 | some state ↦ size state inner.files ];
      mtime = p.mtime;
    })
  ]

  unfoldable pub lookup_overlay : ℕ → Text → Inner F D → Option OverlayEntry
  lookup_overlay dir_ino name inner = elim (inner.overlay_names dir_ino name) [
    | none ↦ none
    | some ino ↦ elim (inner.overlay ino) [
      | none ↦ none
      | some p ↦ some (record {
        ino = ino;
        dir_ino = dir_ino;
        name = name;
        size = elim (inner.states ino) [ none ↦ 0 | some state ↦ size state inner.files ];
        mtime = p.mtime;
      })
    ]
  ]

  unfoldable pub size_override : ℕ → Inner F D → Option ℕ
  size_override ino inner = elim (inner.states ino) [
    | none ↦ none
    | some state ↦ some (size state inner.files)
  ]

  -- An offset below 0 counts as 0.
  unfoldable pub read_buffer : ℕ → ℕ → ℕ → Inner F D → Option (WResult Blob)
  read_buffer ino offset n inner = elim (inner.states ino) [
    | none ↦ none
    | some state ↦ elim state.disk [
      | some f ↦ elim (disk.read_at f offset n inner.files) [
        | none ↦ some (err io)
        | some bytes ↦ some (ok bytes)
      ]
      | none ↦ some (ok (slice offset n state.buffer))
    ]
  ]

  unfoldable pub open_overlay : ℕ → Bool → Inner F D → WResult Unit × Inner F D
  open_overlay ino truncate inner = elim (inner.states ino) [
    | none ↦ (err not_found, inner)
    | some state ↦
        let state' : OpenWrite F = record state { refs = state.refs + 1 } in
        if truncate then resize ino state' 0 inner else (ok tt, put_state ino (some state') inner)
  ]

  unfoldable pub write_in :
      Option F → ℕ → ℕ → Blob → OpenWrite F → Inner F D → WResult ℕ × Inner F D
  write_in (some f) ino offset bytes state inner =
      settle_io ino state (length bytes) (disk.write_all_at f bytes offset inner.files) inner
  write_in none ino offset bytes state inner = (
    ok (length bytes),
    put_state ino
        (some (record state { buffer = write_at offset bytes state.buffer; dirty = true })) inner,
  )

  unfoldable pub write : ℕ → ℕ → Blob → Inner F D → WResult ℕ × Inner F D
  write ino offset bytes inner = elim (inner.states ino) [
    | none ↦ (err not_permitted, inner)
    | some state ↦ write_in state.disk ino offset bytes state inner
  ]

  -- The end of `create`: the name is free in the tree, and `opened` is the file of a mirror, if there is one.
  unfoldable pub add_pending :
      ℕ → Text → FlushTarget → WResult (Option F) → ℕ → Inner F D → WResult OverlayEntry × Inner F D
  add_pending dir_ino name target opened now inner =
      if is_some (inner.overlay_names dir_ino name) then (err exists, inner) else elim opened [
        | err e ↦ (err e, inner)
        | ok handle ↦
            let ino = inner.next_overlay_ino in
            (
              ok (record { ino = ino; dir_ino = dir_ino; name = name; size = 0; mtime = now }),
              record inner {
                next_overlay_ino = ino + 1;
                overlay =
                    set ino (some (record { dir_ino = dir_ino; name = name; mtime = now }))
                      inner.overlay;
                overlay_names = λ d n.
                    if nat_beq d dir_ino && (n == name) then some ino else inner.overlay_names d n;
                states =
                    set ino
                      (some (record {
                        buffer = [];
                        disk = handle;
                        unlinked = false;
                        dirty = true;
                        refs = 1;
                        target = target;
                      }))
                      inner.states;
              },
            )
      ]

  -- `retain(|_, i| i != ino)`.
  unfoldable pub unless_is : ℕ → Option ℕ → Option ℕ
  unless_is ino none = none
  unless_is ino (some i) = if nat_beq i ino then none else some i

  -- The mirror is told of the close of a file of its own that is still there.
  unfoldable pub note_close : FlushTarget → OpenWrite F → Inner F D → Inner F D
  note_close (home_file path _ _) state inner =
      if inner.mirrored && not state.unlinked
      then record inner { closed = path ∷ inner.closed }
      else inner
  note_close _ state inner = inner

  unfoldable pub forget : ℕ → Inner F D → Inner F D
  forget ino inner = record inner {
    states = set ino none inner.states;
    overlay = set ino none inner.overlay;
    overlay_names = λ d n. unless_is ino (inner.overlay_names d n);
  }

  unfoldable pub release : ℕ → Inner F D → Inner F D
  release ino inner = elim (inner.states ino) [
    | none ↦ inner
    | some state ↦
        let refs = state.refs - 1 in
        if nat_beq refs 0
        then forget ino (note_close state.target state inner)
        else put_state ino (some (record state { refs = refs })) inner
  ]

  unfoldable pub has_state : ℕ → Inner F D → Bool
  has_state ino inner = is_some (inner.states ino)
