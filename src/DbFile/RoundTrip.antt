-- ===== src/DbFile/RoundTrip.antt =====
-- `VideoDB::Save` and then `VideoDB::Load` of server/VideoDB.cpp, through the file between them.
use video_match.Base.{
  ℕ, ◌+◌, ◌<◌, ◌≡◌, refl, false, true, List, [], ◌++◌, Option, none, some, any_of, length, take,
  drop, Name, map, arith, sym, ◌∙◌, pos, ◌^◌, append_assoc, bytes_eq_refl, bytes_eq,
}
use mathlib.Core.Path.{fun_ext, subst}
use video_match.DbFile.{ByteList, file_sig, file_head, le_bytes, item_bytes}
use video_match.DbFile.Bytes.{length-le_bytes, drop_past}
use video_match.DbFile.Load.{Loading, read_int, load, load_items, reserve, index_items}
use video_match.DbFile.Loading.{content_of, load_items_at}
use video_match.DbFile.Reading.{read_int_at}
use video_match.DbFile.Ready.{load-IsValid}
use video_match.DbFile.Restored.{
  first_of-content, length-content, unfit, unfit-content, index_loaded, add_videos-first_of,
  first_of, or_first,
}
use video_match.DbFile.Save.{save}
use video_match.DbFile.Saving.{content, file_of, save-file_of, long_name}
use video_match.DbFile.Written.{joined}
use video_match.VideoDb.Refinement.{empty_db}
use video_match.VideoDb.Walks.{any_of-arrange, length-arrange}
use video_match.VideoDb.Valid.{view, IsValid}
use video_match.VideoDb.{VideoDb, find_name, Orders, hsize_bits}

-- The reads at the start of a file.
record Start (file items : ByteList) (videos : ℕ) : Type 0 where
  pub signed : bytes_eq (take 13 file) file_sig ≡ true
  pub video_num : read_int file (pos 13) ≡ some (pos videos)
  pub block_num : read_int file (pos 17) ≡ some (pos 0)
  pub body : drop 21 file ≡ items

drop_at :
    (file bytes rest : ByteList) (c : ℕ) {k : ℕ}
    → length bytes ≡ k
    → drop c file ≡ bytes ++ rest
    → drop (c + k) file ≡ rest
drop_at file bytes rest c {k} len h =
    subst (λ n. drop (c + n) file ≡ rest) len (drop_past file bytes rest c h)

read-Start :
    (videos : ℕ) (items : ByteList)
    → videos < 2 ^ 31
    → Start (file_head videos ++ items) items videos
read-Start videos items h =
    let file = file_head videos ++ items in
    let at : drop 13 file ≡ le_bytes 4 videos ++ (le_bytes 4 0 ++ items) =
      append_assoc (le_bytes 4 videos) (le_bytes 4 0) items in
    let at2 : drop 17 file ≡ le_bytes 4 0 ++ items =
      drop_at file (le_bytes 4 videos) (le_bytes 4 0 ++ items) 13 (length-le_bytes 4 videos) at in
    record {
      signed = bytes_eq_refl file_sig;
      video_num = read_int_at file (le_bytes 4 0 ++ items) 13 videos h at;
      block_num = read_int_at file items 17 0 (omega arith) at2;
      body = drop_at file (le_bytes 4 0) items 17 (length-le_bytes 4 0) at2;
    }

no_first : (n : Name) (found : Option (List ℕ)) → or_first (content_of [] [] n) found ≡ found
unfolding view find_name or_first
no_first n none = refl
no_first n (some fs) = refl

load_runs :
    (orders : Orders) (file items : ByteList) (videos : ℕ) (l : Loading) (v' : VideoDb)
    → Start file items videos
    → load_items file videos (record { cursor = pos 21; heap = []; db = []; hslot_cnt = λ _. 0 })
      ≡ some l
    → index_items orders
        (map (λ (e : Name × ℕ). e.1) (orders.names.arrange l.db))
        (record { heap = l.heap; db = l.db; table = reserve (2 ^ hsize_bits) 0 l.hslot_cnt [] })
      ≡ some v'
    → load orders (some file) empty_db ≡ some (pos 0, v')
unfolding load
load_runs orders file items videos l v' s items_read indexed =
    rw (s.signed, s.video_num, s.block_num) (rw items_read (rw indexed refl))

-- A file of `n` items that the format can hold gives its items back.
load-file_of :
    (orders other : Orders) (v : VideoDb) (rest : ByteList)
    → IsValid v
    → length v.db < 2 ^ 31
    → any_of (unfit v.heap) v.db ≡ false
    → (v' : VideoDb) × (load other (some (file_of orders v ++ rest)) empty_db ≡ some (pos 0, v'))
      × (view v' ≡ view v)
load-file_of orders other v rest valid small ok =
    let db = orders.names.arrange v.db in
    let items = content v.heap db in
    let count_same : length items ≡ length v.db =
      length-content v.heap db ∙ length-arrange orders.names v.db in
    let start =
      subst (λ f. Start f (item_bytes items ++ rest) (length v.db))
        (sym (append_assoc (file_head (length v.db)) (item_bytes items) rest))
        (read-Start (length v.db) (item_bytes items ++ rest) small) in
    let fit = unfit-content v.heap db (any_of-arrange orders.names (unfit v.heap) v.db ∙ ok) in
    let (l, runs, sound, filled) =
      load_items_at (file_of orders v ++ rest) rest items 21
        (record { cursor = pos 21; heap = []; db = []; hslot_cnt = λ _. 0 }) refl fit
        (record { live = refl; below = refl }) start.body in
    let (v', indexed, same) =
      index_loaded other l (reserve (2 ^ hsize_bits) 0 l.hslot_cnt []) sound in
    (
      v',
      load_runs other (file_of orders v ++ rest) (item_bytes items ++ rest) (length v.db) l v' start
          (subst
            (λ n.
              load_items (file_of orders v ++ rest) n
                (record { cursor = pos 21; heap = []; db = []; hslot_cnt = λ _. 0 })
              ≡ some l)
            count_same runs)
          indexed,
      same
          ∙ filled
          ∙ fun_ext (λ n.
            add_videos-first_of items (content_of [] []) n
            ∙ no_first n (first_of items n)
            ∙ first_of-content orders v n valid),
    )

-- The file after complete writes of so many bytes over an older file: it is not truncated.
abbrev pub written_over : ByteList → ByteList → ByteList
written_over bytes old = bytes ++ drop (length bytes) old

-- For a well-formed database of fewer than 2 ^ 31 videos whose names have at most 8183 bytes and no
-- zero byte, and whose frames are 64-bit words, fewer than 2 ^ 31 to a video: `Save` returns 0, and
-- `Load`, started on the empty database from the file that the complete writes of `Save` leave
-- behind, whatever older file they went over, does not fault, returns 0 and leaves a well-formed
-- database with the same content.
pub load-save :
    (orders other : Orders) (v : VideoDb) (old : ByteList)
    → IsValid v
    → length v.db < 2 ^ 31
    → any_of long_name v.db ≡ false
    → any_of (unfit v.heap) v.db ≡ false
    → (blocks : List ByteList) × (v' : VideoDb) × (save orders true v ≡ some (pos 0, blocks, v))
      × (load other (some (written_over (joined blocks) old)) empty_db ≡ some (pos 0, v'))
      × IsValid v'
      × (view v' ≡ view v)
load-save orders other v old valid small short ok =
    let (blocks, saved, all, none_long) = save-file_of orders v valid short in
    let rest = drop (length (joined blocks)) old in
    let (v', runs, same) = load-file_of orders other v rest valid small ok in
    (
      blocks,
      v',
      saved,
      subst (λ b. load other (some (b ++ rest)) empty_db ≡ some (pos 0, v')) (sym all) runs,
      load-IsValid other (some (file_of orders v ++ rest)) runs,
      same,
    )
