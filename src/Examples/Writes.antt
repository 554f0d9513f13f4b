-- ===== src/Examples/Writes.antt =====
-- The write buffers at concrete inputs. A disk that fails: no file of these is on it.
use canvas_fuse.Prelude.{ℕ, ◌≡◌, refl, true, false, none, some, [], ◌∷◌, codes}
use canvas_fuse.Blobs.{Blob}
use canvas_fuse.Writes.{
  Disk, OpenWrite, Inner, new, FlushTarget, create, ok, write, write_at, read_buffer, add_pending,
  release,
}
use canvas_fuse.Writes.Bytes.{byte_at, overwritten, write_at-byte_at, read_buffer-write}
use canvas_fuse.Writes.Owned.{IsOwned, Reach-IsOwned, begun, stepped, added, released}

abbrev disk : Disk ℕ ℕ
disk = record {
  len = λ f d. none;
  set_len = λ f n d. (false, d);
  write_all_at = λ f bytes offset d. (false, d);
  read_at = λ f offset n d. none;
}

abbrev target : FlushTarget
target = create (codes "c") [] 2 (codes "a.md")

abbrev state : OpenWrite ℕ
state = record {
  buffer = 1 ∷ 2 ∷ [];
  disk = none;
  unlinked = false;
  dirty = true;
  refs = 1;
  target = target;
}

abbrev opened : Inner ℕ ℕ
opened = record {
  states = λ ino. some state;
  overlay = λ ino. none;
  overlay_names = λ d n. none;
  next_overlay_ino = 10;
  files = 0;
  mirrored = false;
  closed = [];
}

abbrev written : Blob
written = 7 ∷ 8 ∷ []

write_at-byte_at_example :
    byte_at 2 (write_at 3 written (1 ∷ 2 ∷ [])) ≡ overwritten 2 3 written (1 ∷ 2 ∷ [])
write_at-byte_at_example = write_at-byte_at 2 3 written (1 ∷ 2 ∷ [])

read_buffer-write_example :
    ((write disk 4 3 written opened).0 ≡ ok 2)
    × (read_buffer disk 4 3 2 (write disk 4 3 written opened).1 ≡ some (ok written))
read_buffer-write_example = read_buffer-write disk 4 3 written opened state refl refl

abbrev start : Inner ℕ ℕ
start = new 0 false

abbrev created : Inner ℕ ℕ
created = (add_pending disk 2 (codes "a.md") target (ok none) 5 start).1

Reach-IsOwned_example : IsOwned disk (release disk 281474976710656 created)
Reach-IsOwned_example = Reach-IsOwned disk 0 false (release disk 281474976710656 created) (
    stepped created (release disk 281474976710656 created)
      (stepped start created begun (added 2 (codes "a.md") target (ok none) 5 start))
      (released 281474976710656 created))
