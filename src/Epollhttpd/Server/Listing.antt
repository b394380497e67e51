-- ===== src/Epollhttpd/Server/Listing.antt =====
-- The page that `send_dir` sends.
use c_language_learnning.Base.{
  ℕ, ◌+◌, ◌*◌, ◌^◌, ◌≤◌, ◌<◌, ◌≡◌, refl, ap, ◌∙◌, sym, some, List, [], ◌∷◌, ◌++◌, length,
  length-append, codes, arith, append_assoc, append-nil, All,
}
use c_language_learnning.Effects.{Event, Run, ret, fits-pure, output, output-append}
use c_language_learnning.Decimal.{decimal}
use c_language_learnning.Decimal.RoundTrip.{length-decimal}
use c_language_learnning.Epollhttpd.Url.{encode_str}
use c_language_learnning.Epollhttpd.Url.Bounds.{length-encode_str_le}
use c_language_learnning.Epollhttpd.Server.{
  Env, Stat, dir, reg, other, full_path, row, page_head, page_foot, current_directory, send_rows,
  send_dir, or_exit,
}

-- A name of a directory with what `stat` says of it.
abbrev pub Entry : Type 0
Entry = List ℕ × Stat

abbrev pub size_of : Stat → ℕ
size_of (dir n) = n
size_of (reg n) = n
size_of (other n) = n

-- `stat` knows the entry, its name has at most NAME_MAX bytes, and its size is below 10 ^ 19.
pub record Shown (env : Env) (path : List ℕ) (e : Entry) : Type 0 where
  pub known : env.stat (full_path path e.0) ≡ some e.1
  pub short : length e.0 ≤ 255
  pub small : size_of e.1 < 10 ^ 19

abbrev pub names : List Entry → List (List ℕ)
names [] = []
names ((name, st) ∷ es) = name ∷ names es

-- What stands behind the link and the name of an entry.
abbrev pub slash : Stat → List ℕ
slash (dir n) = codes "/"
slash (reg n) = []
slash (other n) = []

-- A row with link, name and size.
abbrev pub link_row : List ℕ → List ℕ → ℕ → List ℕ
link_row name behind size =
    codes "<tr><td><a href=\""
    ++ (encode_str 1024 name
        ++ (behind
            ++ (codes "\">"
                ++ (name
                    ++ (behind
                        ++ (codes "</a></td><td>" ++ (decimal size ++ codes "</td></tr>")))))))

-- The rows of a page, in the order of the directory: one for each file and each directory, none for anything else.
pub rows : List Entry → List ℕ
rows [] = []
rows ((name, other n) ∷ es) = rows es
rows ((name, reg n) ∷ es) = link_row name (slash (reg n)) n ++ rows es
rows ((name, dir n) ∷ es) = link_row name (slash (dir n)) n ++ rows es

-- The rows are those that the loop writes.
rows-row :
    (name : List ℕ) (st : Stat) (es : List Entry) → rows ((name, st) ∷ es) ≡ row name st ++ rows es
unfolding rows row
rows-row name (other n) es = refl
rows-row name (reg n) es = refl
rows-row name (dir n) es = refl

length-row :
    (name : List ℕ) (st : Stat)
    → length name ≤ 255
    → size_of st < 10 ^ 19
    → length (row name st) ≤ 1200
unfolding row
length-row name (reg size) hn hs = omega (
  arith,
  length-append (encode_str 1024 name)
      (codes "\">" ++ (name ++ (codes "</a></td><td>" ++ (decimal size ++ codes "</td></tr>")))),
  length-append name (codes "</a></td><td>" ++ (decimal size ++ codes "</td></tr>")),
  length-append (decimal size) (codes "</td></tr>"),
  length-encode_str_le 1024 name,
  length-decimal size 18 hs,
)
length-row name (dir size) hn hs = omega (
  arith,
  length-append (encode_str 1024 name)
      (codes "/\">" ++ (name ++ (codes "/</a></td><td>" ++ (decimal size ++ codes "</td></tr>")))),
  length-append name (codes "/</a></td><td>" ++ (decimal size ++ codes "</td></tr>")),
  length-append (decimal size) (codes "</td></tr>"),
  length-encode_str_le 1024 name,
  length-decimal size 18 hs,
)
length-row name (other size) hn hs = omega arith

length-page_head : (path : List ℕ) → length (page_head path) ≤ 2 * length path + 120
unfolding page_head
length-page_head path = omega (
  arith,
  length-append (path ++ codes "</title></head>")
      (codes "<body><h1>" ++ (current_directory ++ (codes ": " ++ (path ++ codes "</h1><table>")))),
  length-append path (codes "</title></head>"),
  length-append path (codes "</h1><table>"),
)

length-full_path :
    (path name : List ℕ) → length (full_path path name) ≡ length path + length name + 1
unfolding full_path
length-full_path path name = omega (arith, length-append path (b'/' ∷ name))

-- The events of the loop and what is left in the buffer.
record Sent (buf text : List ℕ) (r : Run (List ℕ)) : Type 0 where
  es : List Event
  left : List ℕ
  run : r ≡ ret es left
  all : output es ++ left ≡ buf ++ text
  short : length left ≤ 2000

send_rows-Sent :
    (env : Env) (cfd : ℕ) (path : List ℕ) (entries : List Entry) (buf : List ℕ)
    → All (Shown env path) entries
    → length path ≤ 700
    → length buf ≤ 2000
    → Sent buf (rows entries) (send_rows env cfd path (names entries) buf)
unfolding send_rows rows or_exit
send_rows-Sent env cfd path [] buf h hp hb = record {
  es = [];
  left = buf;
  run = refl;
  all = sym (append-nil buf);
  short = hb;
}
send_rows-Sent env cfd path ((name, st) ∷ entries) buf h hp hb =
    let ih = send_rows-Sent env cfd path entries [] h.1 hp (omega arith) in
    record {
      es = Event.send cfd (buf ++ row name st) ∷ ih.es;
      left = ih.left;
      run = rw (
        fits-pure (length (full_path path name)) 1024
            (omega (arith, length-full_path path name, h.0.short)),
        h.0.known,
        fits-pure (length (buf ++ row name st)) 4096 (
            omega (arith, length-append buf (row name st), length-row name st h.0.short h.0.small)),
        ih.run,
      );
      all =
          rw (append_assoc, ih.all, append_assoc)
            (ap (λ l. buf ++ l) (sym (rows-row name st entries)));
      short = ih.short;
    }

-- For a path of at most 700 bytes, and a directory whose entries are all known to `stat`, have
-- names of at most 255 bytes and sizes below 10 ^ 19, `send_dir` overruns none of its buffers and
-- returns, and what it sends is the head of the page, one row for each file and each directory in the order of
-- the directory, with the encoded link, the name and the size, a directory's link and name with a '/', and the
-- foot: no row is lost, doubled or cut by the buffer that is sent piece by piece. An entry that is neither
-- has no row.
pub send_dir-rows :
    (env : Env) (cfd : ℕ) (path : List ℕ) (entries : List Entry)
    → env.opendir path ≡ some (names entries)
    → All (Shown env path) entries
    → length path ≤ 700
    → (es : List Event) × (send_dir env cfd path ≡ ret es tt)
      × (output es ≡ page_head path ++ (rows entries ++ page_foot))
unfolding send_dir or_exit
send_dir-rows env cfd path entries opened h hp =
    let s =
      send_rows-Sent env cfd path entries (page_head path) h hp
        (omega (arith, length-page_head path)) in
    (
      s.es ++ (Event.send cfd (s.left ++ page_foot) ∷ []),
      rw (
        fits-pure (length (page_head path)) 4096 (omega (arith, length-page_head path)),
        opened,
        s.run,
        fits-pure (length (s.left ++ page_foot)) 4096
            (omega (arith, length-append s.left page_foot, s.short)),
      ),
      rw (output-append, append-nil)
          (sym (append_assoc (output s.es) s.left page_foot)
            ∙ (ap (λ t. t ++ page_foot) s.all
                ∙ append_assoc (page_head path) (rows entries) page_foot)),
    )
