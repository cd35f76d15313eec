-- ===== src/Qlib/Store.antt =====
-- qlib/qlib.go, tStore: the files of messages, and the links to them in the nodes' directories.
pub mod Ids
pub mod Restart
pub mod Links
pub mod Delivery
pub mod Copying
mod Tests
use mnm.Prelude.{
  ℕ, zero, suc, ◌+◌, ◌-◌, ◌%◌, ◌/◌, Bool, true, false, ◌&&◌, Option, none, some, List, [], ◌∷◌,
  ◌++◌, Text, Dict, length, take, drop, lookup, insert, delete, is_empty, ltb, leb, if◌then◌else◌,
  map,
}
use mnm.Prelude.Order.{sort_texts}
use mnm.UserDb.Model.{hex_digit, or_zero}
use mnm.UserDb.Open.{keys}
use mnm.Qlib.Op.{
  Ending, Fault, file_exists, no_file, not_empty, Result, ok, err, panic, Op, pure, raise, crash,
  ◌>>=◌, ◌>>◌,
}
use mnm.Qlib.Stream.{Stream, copy_pieces}

-- A file is an index into `files`, so that links to one file share what it holds. A node's directory
-- is there or not; the directories between it and Root hold nothing else.
pub record Store : Type 0 where
  pub next_id : ℕ
  pub temp : Dict ℕ
  pub dirs : Dict (Dict ℕ)
  pub files : List Text

abbrev pub get_elem? : List Text → ℕ → Option Text
get_elem? [] i = none
get_elem? (x ∷ xs) zero = some x
get_elem? (x ∷ xs) (suc i) = get_elem? xs i

abbrev pub set : List Text → ℕ → Text → List Text
set [] i v = []
set (x ∷ xs) zero v = v ∷ xs
set (x ∷ xs) (suc i) v = x ∷ set xs i v

-- strings.ToLower, on ASCII.
abbrev pub lower_byte : ℕ → ℕ
lower_byte c = if leb b'A' c && leb c b'Z' then c + 32 else c

-- _nodeSub: the directory, after iNode[:4], which panics on a shorter name.
unfoldable pub node_sub : Text → Option Text
node_sub node = if ltb (length node) 4 then none else some (map lower_byte node)

-- fmt.Sprintf("%016x", n)
unfoldable pub hex_from : ℕ → ℕ → Text
hex_from zero n = []
hex_from (suc k) n = hex_from k (n / 16) ++ hex_digit (n % 16) ∷ []

abbrev pub max_uint64 : ℕ
max_uint64 = 0x10000000000000000

-- makeId
unfoldable pub make_id : Op Store Text
unfolding hex_from
make_id s = let n = (s.next_id + 1) % max_uint64 in (ok (hex_from 16 n), record s { next_id = n })

-- Init, where the directories are there already, or are made: the first identifier is from the time
-- that the configuration got, or from the clock's if it has none (in test runs), in nanoseconds.
unfoldable pub init : ℕ → Option ℕ → Store → Store
init now given s = record s { next_id = or_zero now given % max_uint64 }

abbrev pub with_dir {ℓ} : {A : Type ℓ} → Option Text → (Text → Op Store A) → Op Store A
with_dir none f s = (panic, s)
with_dir (some dir) f s = f dir s

-- The operations on a node's directory, by its path.
abbrev pub in_node {ℓ} : {A : Type ℓ} → Text → (Text → Op Store A) → Op Store A
in_node node f s = with_dir (node_sub node) f s

abbrev pub dir_of : Text → Store → Dict ℕ
dir_of dir s = or_zero [] (lookup dir s.dirs)

-- What recvFile leaves on the stream, with its error.
abbrev pub received : ℕ → Ending → List Text → Result Stream
received missing e left =
    if ltb 0 missing then err (Fault.stream e) else ok (record { pieces = left; ending = e })

-- recvFile; CopyN copies nothing when the data are all there, or more.
unfoldable pub recv_file : Text → Text → Text → Stream → ℕ → Op Store Stream
recv_file id head bytes stream len s = elim (lookup id s.temp) [
  | some f ↦ (err file_exists, s)
  | none ↦
      let copied = copy_pieces (len - length bytes) stream.pieces in
      (
        received copied.1 stream.ending copied.2,
        record s {
          temp = insert id (length s.files) s.temp;
          files = s.files ++ (head ++ (bytes ++ copied.0)) ∷ [];
        },
      )
]

abbrev pub link_in : Text → Text → ℕ → Store → Store
link_in dir id f s = record s { dirs = insert dir (insert id f (dir_of dir s)) s.dirs }

abbrev pub make_dir : Text → Store → Store
make_dir dir s = record s { dirs = insert dir (dir_of dir s) s.dirs }

-- os.Link to the file `f`, where the directory has or has not the name.
abbrev pub link_new : Text → Text → ℕ → Option ℕ → Op Store (Unit {0})
link_new dir id f (some g) s = (ok tt, make_dir dir s)
link_new dir id f none s = (ok tt, link_in dir id f s)

abbrev pub link_from : Text → Text → Option ℕ → Op Store (Unit {0})
link_from dir id none s = (err no_file, make_dir dir s)
link_from dir id (some f) s = link_new dir id f (lookup id (dir_of dir s)) s

-- putLink
unfoldable pub put_link : Text → Text → Text → Op Store (Unit {0})
put_link src node id = in_node node λ dir s. link_from dir id (lookup src s.temp) s

-- rmFile
unfoldable pub rm_file : Text → Op Store (Unit {0})
rm_file id s = elim (lookup id s.temp) [
  | none ↦ (err no_file, s)
  | some f ↦ (ok tt, record s { temp = delete id s.temp })
]

-- rmLink
unfoldable pub rm_link : Text → Text → Op Store (Unit {0})
rm_link node id = in_node node λ dir s. elim (lookup id (dir_of dir s)) [
  | none ↦ (err no_file, s)
  | some f ↦ (ok tt, record s { dirs = insert dir (delete id (dir_of dir s)) s.dirs })
]

-- zeroFile: every link to the file sees it emptied.
unfoldable pub zero_file : Text → Text → Op Store (Unit {0})
zero_file node id = in_node node λ dir s. elim (lookup id (dir_of dir s)) [
  | none ↦ (err no_file, s)
  | some f ↦ (ok tt, record s { files = set s.files f [] })
]

-- rmDir
unfoldable pub rm_dir : Text → Op Store (Unit {0})
rm_dir node = in_node node λ dir s. elim (lookup dir s.dirs) [
  | none ↦ (ok tt, s)
  | some m ↦
      if is_empty m then (ok tt, record s { dirs = delete dir s.dirs }) else (err not_empty, s)
]

-- sendFile: the bytes that are written to the connection.
unfoldable pub send_file : Text → Text → Op Store Text
send_file node id = in_node node λ dir s. elim (lookup id (dir_of dir s)) [
  | none ↦ (err no_file, s)
  | some f ↦ (ok (or_zero [] (get_elem? s.files f)), s)
]

-- getDir
unfoldable pub get_dir : Text → Op Store (List Text)
get_dir node = in_node node λ dir s. (ok (sort_texts (keys (dir_of dir s))), s)

-- The loop of copyDir: a link that is gone, or that is there already, is passed over.
unfoldable pub copy_links : List Text → Dict ℕ → Dict ℕ → Dict ℕ
copy_links [] src dest = dest
copy_links (id ∷ ids) src dest = copy_links ids src (elim (lookup id src) [
  | none ↦ dest
  | some f ↦ elim (lookup id dest) [ none ↦ insert id f dest | some g ↦ dest ]
])

-- copyDir
unfoldable pub copy_dir : Text → Text → Op Store (Unit {0})
unfolding get_dir copy_links
copy_dir node to_node = do
  ids ← get_dir node
  if is_empty ids
      then pure tt
      else in_node node λ src. in_node to_node λ dest s. (
        ok tt,
        record s { dirs = insert dest (copy_links ids (dir_of src s) (dir_of dest s)) s.dirs },
      )
