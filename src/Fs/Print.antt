-- ===== src/Fs/Print.antt =====
-- fs_get_path stays within its buffer.
use rpi4_bare_metal_os.Prelude.{
  ℕ, ◌-◌, ◌≤◌, ◌<◌, List, [], ◌∷◌, ◌++◌, max, ltb, if◌then◌else◌, length, length-append, arith,
}
use rpi4_bare_metal_os.Text.{put_bytes, length-put_bytes}
use rpi4_bare_metal_os.Fs.{FsState}
use rpi4_bare_metal_os.Fs.Api.{path_parts, put_parts, fs_get_path}

length-put_parts :
    (limit : ℕ) (buf : List ℕ) (parts : List (List ℕ))
    → length (put_parts limit buf parts) ≤ max limit (length buf)
unfolding put_parts
length-put_parts limit buf [] = omega arith
length-put_parts limit buf (p ∷ []) = length-put_bytes limit buf p
length-put_parts limit buf (p ∷ q ∷ rest) =
    let b : List ℕ = put_bytes limit buf p in
    let b' : List ℕ = if ltb (length b) limit then b ++ b'/' ∷ [] else b in
    ground (
      arith,
      length-put_parts limit b' (q ∷ rest),
      length-put_bytes limit buf p,
      length-append b (b'/' ∷ []),
    )

-- In a buffer of at least two bytes, what fs_get_path writes for any node and its NUL fit.
pub length-fs_get_path :
    (node bufsize : ℕ) (fs : FsState) → 2 ≤ bufsize → length (fs_get_path node bufsize fs) < bufsize
unfolding fs_get_path
length-fs_get_path node bufsize fs room =
    ground (arith, length-put_parts (bufsize - 2) (b'/' ∷ []) (path_parts 16 node fs []))
