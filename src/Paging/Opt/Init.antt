-- ===== src/Paging/Opt/Init.antt =====
-- `opt_init` of opt.c: the trace is read ahead.
use cscc.Prelude.{ℕ, zero, suc, ◌+◌, ◌==◌, none, List, [], ◌∷◌, if◌then◌else◌, update, length}
use cscc.Paging.Opt.{Opt, TraceItem, never}

-- A file is the bytes that are left of it; a byte 255 in a `char` is EOF too.
abbrev pub eof : ℕ
eof = 255

-- The first loop: the newlines.
unfoldable pub count_lines : List ℕ → ℕ → ℕ
count_lines [] lines = lines
count_lines (ch ∷ file) lines =
    let rest = count_lines file (if ch == b'\n' then lines + 1 else lines) in
    if ch == eof then lines else rest

module _ (scan : List ℕ → ℕ × List ℕ) where
  -- The second loop: an item for each round, with the address that `fscanf` reads. A round takes a
  -- byte at least, so the number of bytes is fuel enough. The index of an item is not set here.
  unfoldable pub read_items : (fuel i : ℕ) → List ℕ → List TraceItem
  read_items zero i file = []
  read_items (suc fuel) i [] = []
  read_items (suc fuel) i (ch ∷ file) =
      let (addr, left) = scan file in
      let rest = read_items fuel (i + 1) left in
      if ch == eof then [] else record { index = 0; time = i; addr = addr } ∷ rest

  -- `coremap->addrs`
  unfoldable pub addrs_of : List TraceItem → (ℕ → ℕ) → ℕ → ℕ
  addrs_of [] addrs = addrs
  addrs_of (item ∷ items) addrs = addrs_of items (update addrs item.time item.addr)

  unfoldable pub opt_init : List ℕ → Opt
  unfolding count_lines read_items addrs_of
  opt_init file =
      let items = read_items (length file) 0 file in
      record {
        pre = none;
        items = items;
        lines = count_lines file 0 + 1;
        addrs = addrs_of items (λ _. 0);
        memory = λ m. never;
      }
