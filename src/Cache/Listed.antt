-- ===== src/Cache/Listed.antt =====
-- What `VideoManager::LoadPath` of browse_server/main.cpp makes of the list file of the
-- videos.
use video_match.Base.{
  ◌≤◌, append-nil, ℕ, ◌+◌, ◌-◌, ◌≡◌, refl, Bool, false, ◌||◌, List, [], ◌∷◌, ◌++◌, Option, none,
  some, ◌==◌, if◌then◌else◌, length, length-append, take, drop, drop-append, any_of, member,
  append_assoc, arith, ap, sym, ◌∙◌, Name, bytes_of, bytes_eq_refl,
}
use video_match.Cache.Paths.{scan_path, cut_line, put_path, add_line, add_lines, reads, load_paths}

-- No zero byte and no line end.
abbrev pub ends_line : ℕ → Bool
ends_line c = (c == 0) || (c == b'\n')

abbrev pub IsPlain : Name → Type 0
IsPlain xs = any_of ends_line xs ≡ false

abbrev pub extension : Name
extension = bytes_of ".pickle"

cut_line-IsPlain : (xs rest : Name) → IsPlain xs → cut_line (xs ++ b'\n' ∷ rest) ≡ xs
unfolding cut_line
cut_line-IsPlain [] rest p = refl
cut_line-IsPlain (c ∷ xs) rest p = ground (arith, p, cut_line-IsPlain xs rest (ground (arith, p)))

-- The scan of a text that the loop reads through, and of one without '/'.
scan_path-IsPlain :
    (xs rest : Name) (i s : ℕ) (d : Option ℕ)
    → IsPlain xs
    → (s' : ℕ) × (d' : Option ℕ) × (scan_path (xs ++ rest) i s d
        ≡ scan_path rest (i + length xs) s' d')
unfolding scan_path
scan_path-IsPlain [] rest i s d p = (s, d, ap (λ n. scan_path rest n s d) (omega arith))
scan_path-IsPlain (c ∷ xs) rest i s d p =
    let on : ends_line c ≡ false = ground (arith, p) in
    let (s', d', more) =
      scan_path-IsPlain xs rest (i + 1) (if c == b'/' then i + 1 else s)
        (if c == b'.' then some i else d) (ground (arith, p)) in
    (s', d', rw on (more ∙ ap (λ n. scan_path rest n s' d') (omega arith)))

scan_path-base :
    (xs rest : Name) (i s : ℕ) (d : Option ℕ)
    → IsPlain xs
    → member b'/' xs ≡ false
    → (d' : Option ℕ) × (scan_path (xs ++ rest) i s d ≡ scan_path rest (i + length xs) s d')
unfolding scan_path
scan_path-base [] rest i s d p out = (d, ap (λ n. scan_path rest n s d) (omega arith))
scan_path-base (c ∷ xs) rest i s d p out =
    let on : ends_line c ≡ false = ground (arith, p) in
    let other : (c == b'/') ≡ false = ground (arith, out) in
    let (d', more) =
      scan_path-base xs rest (i + 1) s (if c == b'.' then some i else d) (ground (arith, p))
        (ground (arith, out)) in
    (d', rw on (rw other (more ∙ ap (λ n. scan_path rest n s d') (omega arith))))

take-append : (xs ys : Name) → take (length xs) (xs ++ ys) ≡ xs
take-append [] ys = refl
take-append (x ∷ xs) ys = ap (◌∷◌ x) (take-append xs ys)

IsPlain-append : (xs ys : Name) → IsPlain xs → IsPlain ys → IsPlain (xs ++ ys)
IsPlain-append [] ys p q = q
IsPlain-append (x ∷ xs) ys p q = ground (arith, p, IsPlain-append xs ys (ground (arith, p)) q)

-- The whole line.
scan_path-line :
    (dir base : Name)
    → IsPlain dir
    → IsPlain base
    → member b'/' base ≡ false
    → scan_path (dir ++ (b'/' ∷ (base ++ bytes_of ".pickle\n"))) 0 0 none
      ≡ (length dir + 1, some (length dir + 1 + length base))
unfolding scan_path
scan_path-line dir base p q out =
    let (s, d, front) = scan_path-IsPlain dir (b'/' ∷ (base ++ bytes_of ".pickle\n")) 0 0 none p in
    let (d', back) =
      scan_path-base base (bytes_of ".pickle\n") (length dir + 1) (length dir + 1) d q out in
    front ∙ ap (λ n. scan_path (b'/' ∷ (base ++ bytes_of ".pickle\n")) n s d) (omega arith) ∙ back

drop_front : (n : ℕ) (xs ys : Name) → n ≡ length xs → drop n (xs ++ ys) ≡ ys
drop_front n xs ys e = rw e (drop-append xs ys)

-- The path of a video, and what `LoadPath` cuts out of it.
abbrev pub path_of : Name → Name → Name
path_of dir base = dir ++ (b'/' ∷ (base ++ extension))

cut_line-path_of :
    (dir base : Name)
    → IsPlain dir
    → IsPlain base
    → cut_line (dir ++ (b'/' ∷ (base ++ bytes_of ".pickle\n"))) ≡ path_of dir base
cut_line-path_of dir base p q =
    let whole : path_of dir base ++ b'\n' ∷ [] ≡ dir ++ (b'/' ∷ (base ++ bytes_of ".pickle\n")) =
      append_assoc dir (b'/' ∷ (base ++ extension)) (b'\n' ∷ [])
      ∙ ap (λ t. dir ++ (b'/' ∷ t)) (append_assoc base extension (b'\n' ∷ [])) in
    let plain =
      IsPlain-append dir (b'/' ∷ (base ++ extension)) p (IsPlain-append base extension q refl) in
    ap cut_line (sym whole) ∙ cut_line-IsPlain (path_of dir base) [] plain

drop-path_of :
    (dir base : Name)
    → (drop (length dir + 1 + length base) (path_of dir base) ≡ extension)
      × (drop (length dir + 1) (path_of dir base) ≡ base ++ extension)
drop-path_of dir base =
    let at_dot = append_assoc dir (b'/' ∷ base) extension in
    let at_name = append_assoc dir (b'/' ∷ []) (base ++ extension) in
    (
      ap (drop (length dir + 1 + length base)) (sym at_dot)
          ∙ drop_front (length dir + 1 + length base) (dir ++ b'/' ∷ base) extension
              (omega (arith, length-append dir (b'/' ∷ base))),
      ap (drop (length dir + 1)) (sym at_name)
          ∙ drop_front (length dir + 1) (dir ++ b'/' ∷ []) (base ++ extension)
              (omega (arith, length-append dir (b'/' ∷ []))),
    )

add_line-put_path :
    (dir base : Name) (paths : List (Name × Name))
    → IsPlain dir
    → IsPlain base
    → member b'/' base ≡ false
    → add_line (dir ++ (b'/' ∷ (base ++ bytes_of ".pickle\n"))) paths
      ≡ put_path base (path_of dir base) paths
unfolding add_line
add_line-put_path dir base paths p q out =
    let (at_dot, at_name) = drop-path_of dir base in
    let size : length dir + 1 + length base - (length dir + 1) ≡ length base = omega arith in
    let scanned = scan_path-line dir base p q out in
    let behind = ap (λ r. r.0) scanned in
    let dotted = ap (λ r. r.1) scanned in
    rw (dotted, add_line)
      (rw behind (
        rw (cut_line-path_of dir base p q) (
          rw at_dot (
            rw (bytes_eq_refl extension)
              (rw at_name (rw size (rw (take-append base extension) refl)))))))

-- The line of a video in the list file, and the length of one that `fgets` gives at once.
abbrev pub line_of : Name × Name → Name
line_of (dir, base) = dir ++ (b'/' ∷ (base ++ bytes_of ".pickle\n"))

abbrev pub IsListed : Name × Name → Type 0
IsListed (dir, base) =
    IsPlain dir × IsPlain base × (member b'/' base ≡ false) × (length dir + length base + 9 ≤ 127)

-- The list file of videos, each given by its directory and its name.
abbrev pub list_file : List (Name × Name) → Name
list_file [] = []
list_file (v ∷ videos) = line_of v ++ list_file videos

abbrev pub AllListed : List (Name × Name) → Type 0
AllListed [] = Unit
AllListed (v ∷ videos) = IsListed v × AllListed videos

abbrev pub enter : List (Name × Name) → List (Name × Name) → List (Name × Name)
enter [] paths = paths
enter ((dir, base) ∷ videos) paths = enter videos (put_path base (path_of dir base) paths)

-- `fgets` on a line that fits.
reads-line :
    (line xs rest : Name)
    → IsPlain xs
    → length line + length xs + 1 ≤ 127
    → reads line (xs ++ b'\n' ∷ rest) ≡ (line ++ xs ++ b'\n' ∷ []) ∷ reads [] rest
unfolding reads
reads-line line [] rest p fits = rw append-nil refl
reads-line line (c ∷ xs) rest p fits =
    let on : (c == b'\n') ≡ false = ground (arith, p) in
    let done : length (line ++ c ∷ []) ≡ length line + 1 = length-append line (c ∷ []) in
    let short : (length (line ++ c ∷ []) == 127) ≡ false = ground (arith, done, fits) in
    let more =
      reads-line (line ++ c ∷ []) xs rest (ground (arith, p)) (omega (arith, done, fits)) in
    rw on (
      rw short (more ∙ ap (λ l. (l ++ b'\n' ∷ []) ∷ reads [] rest) (append_assoc line (c ∷ []) xs)))

reads-line_of :
    (dir base rest : Name)
    → IsListed (dir, base)
    → reads [] (line_of (dir, base) ++ rest) ≡ line_of (dir, base) ∷ reads [] rest
reads-line_of dir base rest (p, q, out, short) =
    let path = path_of dir base in
    let plain =
      IsPlain-append dir (b'/' ∷ (base ++ extension)) p (IsPlain-append base extension q refl) in
    let size : length path ≡ length dir + length base + 8 =
      omega (arith, length-append dir (b'/' ∷ (base ++ extension)), length-append base extension) in
    let whole : path ++ b'\n' ∷ [] ≡ line_of (dir, base) =
      append_assoc dir (b'/' ∷ (base ++ extension)) (b'\n' ∷ [])
      ∙ ap (λ t. dir ++ (b'/' ∷ t)) (append_assoc base extension (b'\n' ∷ [])) in
    ap (λ l. reads [] (l ++ rest)) (sym whole)
    ∙ ap (reads []) (append_assoc path (b'\n' ∷ []) rest)
    ∙ reads-line [] path rest plain (omega (arith, size, short))
    ∙ ap (λ l. l ∷ reads [] rest) whole

-- `LoadPath` on a list file whose lines are each a directory, '/', a name and ".pickle": it enters
-- every line, in their order, as the path of its name. No directory or name has a zero byte or a line
-- end and no name has a '/', and each line has at most 127 bytes with its line end.
pub load_paths-enter :
    (videos paths : List (Name × Name))
    → AllListed videos
    → load_paths (list_file videos) paths ≡ enter videos paths
unfolding load_paths add_lines reads
load_paths-enter [] paths all = refl
load_paths-enter ((dir, base) ∷ videos) paths (listed, all) =
    ap (λ ls. add_lines ls paths) (reads-line_of dir base (list_file videos) listed)
    ∙ ap (add_lines (reads [] (list_file videos)))
        (add_line-put_path dir base paths listed.0 listed.1 listed.2)
    ∙ load_paths-enter videos (put_path base (path_of dir base) paths) all
