-- ===== src/Ramfs/Claims.antt =====
-- The heap and the file table of src/fs/ramfs.c together: every file's data is NULL or a block of its own,
-- beside the blocks that others hold.
use kontol_os.Base.{
  ◌≢◌, ℕ, zero, suc, ◌-◌, ◌^◌, ◌≤◌, ◌<◌, ◌≡◌, refl, sym, ap, ◌∙◌, subst, ◌↔◌, inl, inr, some, List,
  [], ◌∷◌, ◌++◌, append_assoc, arith, get_or, set, length, ==_of_ne,
}
use kontol_os.Bytes.{Bytes}
use kontol_os.Memory.{Memory, heap_begin, kmalloc, kfree, null, room}
use kontol_os.Memory.InUse.{found}
use kontol_os.Memory.Realloc.{old_size}
use kontol_os.Memory.Block.{Blocks}
use kontol_os.Memory.Layout.{Represents, Represents-bytes}
use kontol_os.Memory.Claims.{Apart, Claims, kfree-Claims, kmalloc-Claims}
use kontol_os.Memory.Slots.{Claims-pull, Claims-put, Claims-null, null_cases, swap_apart}
use kontol_os.Ramfs.{File, Fs, no_file, file_at, write_file, free_data}

-- The data pointers of the files with their sizes.
abbrev pub data_of : List File → List (ℕ × ℕ)
data_of [] = []
data_of (f ∷ fs) = (f.data_ptr, f.size) ∷ data_of fs

-- They stand in front of the claims of others.
abbrev pub claims : List File → List (ℕ × ℕ) → List (ℕ × ℕ)
claims fs cs = data_of fs ++ cs

pub claims-set :
    (fs : List File) (i : ℕ) (f : File) (cs : List (ℕ × ℕ))
    → i < length fs
    → set (claims fs cs) i (f.data_ptr, f.size) ≡ claims (set fs i f) cs
claims-set [] i f cs h = absurd (omega arith)
claims-set (g ∷ fs) zero f cs h = refl
claims-set (g ∷ fs) (suc i) f cs h =
    ap (λ ds. (g.data_ptr, g.size) ∷ ds) (claims-set fs i f cs (omega arith))

pub claims-get :
    (fs : List File) (i : ℕ) (cs : List (ℕ × ℕ))
    → i < length fs
    → get_or (claims fs cs) i (null, 0)
      ≡ ((get_or fs i no_file).data_ptr, (get_or fs i no_file).size)
claims-get [] i cs h = absurd (omega arith)
claims-get (g ∷ fs) zero cs h = refl
claims-get (g ∷ fs) (suc i) cs h = claims-get fs i cs (omega arith)

Apart-rotate :
    (q p n : ℕ) (xs cs : List (ℕ × ℕ))
    → (Apart q ((p, n) ∷ (xs ++ cs)) ↔ Apart q (xs ++ ((p, n) ∷ cs)))
Apart-rotate q p n [] cs = (λ h. h, λ h. h)
Apart-rotate q p n (x ∷ xs) cs =
    let (to, from) = Apart-rotate q p n xs cs in
    (λ (a, (b, h)). (b, to (a, h)), λ (b, h). let (a, h') = from h in (a, (b, h')))

-- A claim may stand in front of others or behind them.
Claims-behind :
    (bs : Blocks) (p n : ℕ) (xs cs : List (ℕ × ℕ))
    → Claims bs ((p, n) ∷ (xs ++ cs))
    → Claims bs (xs ++ ((p, n) ∷ cs))
Claims-behind bs p n [] cs h = h
Claims-behind bs p n ((q, k) ∷ xs) cs (hold, (a, other), (hold_q, other_q, h)) = (
  hold_q,
  (Apart-rotate q p n xs cs).0
      (swap_apart p q (elim a [ inl e ↦ inl e | inr ne ↦ inr (inr ne) ]), other_q),
  Claims-behind bs p n xs cs (hold, other, h),
)

pub Claims-front :
    (bs : Blocks) (p n : ℕ) (xs cs : List (ℕ × ℕ))
    → Claims bs (xs ++ ((p, n) ∷ cs))
    → Claims bs ((p, n) ∷ (xs ++ cs))
Claims-front bs p n [] cs h = h
Claims-front bs p n ((q, k) ∷ xs) cs (hold_q, other_q, h) =
    let (a, other_q') = (Apart-rotate q p n xs cs).1 other_q in
    let (hold, other, h') = Claims-front bs p n xs cs h in
    (
      hold,
      (swap_apart q p (elim a [ inl e ↦ inl e | inr ne ↦ inr (inr ne) ]), other),
      (hold_q, other_q', h'),
    )

-- The heap is in order; the data of each file and each pointer of `cs` is NULL or a block with room for
-- its bytes, and no two of them are the same block.
abbrev pub InOrder : List (ℕ × ℕ) → Fs → Memory → Type 0
InOrder cs fs m = (bs : Blocks) × Represents m bs × Claims bs (claims fs.file_table cs)

pub InOrder-bytes :
    (cs : List (ℕ × ℕ)) (fs : Fs) (m : Memory) (b : Bytes)
    → InOrder cs fs m
    → InOrder cs fs (record m { bytes = b })
InOrder-bytes cs fs m b (bs, r, h) = (bs, Represents-bytes b r, h)

-- kmalloc gives a claim.
pub allocate :
    (size : ℕ) (cs : List (ℕ × ℕ)) (fs : Fs) (m : Memory)
    → 0 < size
    → size ≤ 2 ^ 32 - 16
    → InOrder cs fs m
    → (p : ℕ) × (m' : Memory) × (kmalloc size m ≡ some (p, m'))
      × InOrder ((p, size) ∷ cs) fs m'
      × (m'.bytes ≡ m.bytes)
allocate size cs fs m more small (bs, r, h) =
    let (p, m', bs', got, r', h', same) =
      kmalloc-Claims size bs (claims fs.file_table cs) more small r h in
    (p, m', got, (bs', r', Claims-behind bs' p size (data_of fs.file_table) cs h'), same)

-- kfree takes it back.
pub release :
    (p n : ℕ) (cs : List (ℕ × ℕ)) (fs : Fs) (m : Memory)
    → InOrder ((p, n) ∷ cs) fs m
    → (m' : Memory) × (kfree p m ≡ some m') × InOrder cs fs m' × (m'.bytes ≡ m.bytes)
release p n cs fs m (bs, r, h) =
    let (m', bs', freed, r', h', same) =
      kfree-Claims p n bs (claims fs.file_table cs) r
        (Claims-front bs p n (data_of fs.file_table) cs h) in
    (m', freed, (bs', r', h'), same)

pub free_data-kfree : (p : ℕ) (m : Memory) → free_data p m ≡ kfree p m
unfolding free_data kfree
free_data-kfree p m = elim (null_cases p) [
  | inl nothing ↦ rw nothing refl
  | inr set_ptr ↦ rw (==_of_ne p null set_ptr) refl
]

set-set : {A : Type 0} (xs : List A) (i : ℕ) (a b : A) → set (set xs i a) i b ≡ set xs i b
set-set [] i a b = refl
set-set (x ∷ xs) zero a b = refl
set-set (x ∷ xs) (suc i) a b = ap (x ∷◌) (set-set xs i a b)

-- A claim goes into the slot of the file that has its pointer and its size.
pub refill :
    (bs : Blocks) (i : ℕ) (f : File) (z : ℕ × ℕ) (fs : List File) (cs : List (ℕ × ℕ))
    → i < length fs
    → Claims bs ((f.data_ptr, f.size) ∷ set (claims fs cs) i z)
    → Claims bs (claims (set fs i f) cs)
refill bs i f z fs cs inside h =
    subst (Claims bs)
      (set-set (claims fs cs) i z (f.data_ptr, f.size) ∙ claims-set fs i f cs inside)
      (Claims-put bs i f.data_ptr f.size (set (claims fs cs) i z) h)

-- The data of a file is freed, and its slot takes an entry without data.
pub clear_slot :
    (i : ℕ) (cs : List (ℕ × ℕ)) (fs : Fs) (m : Memory)
    → i < length fs.file_table
    → InOrder cs fs m
    → (m' : Memory) × (free_data (file_at fs i).data_ptr m ≡ some m')
      × ((f : File) → f.data_ptr ≡ null → InOrder cs (write_file i f fs) m')
      × (m'.bytes ≡ m.bytes)
clear_slot i cs fs m inside (bs, r, h) =
    let p = (file_at fs i).data_ptr in
    let n = (file_at fs i).size in
    let entry = claims-get fs.file_table i cs inside in
    let pulled : (k : ℕ) → Claims bs ((p, n) ∷ set (claims fs.file_table cs) i (null, k)) = λ k.
      subst (λ c. Claims bs (c ∷ set (claims fs.file_table cs) i (null, k))) entry
        (Claims-pull bs i k (claims fs.file_table cs) h) in
    let (m', bs', freed, r', h', same) = kfree-Claims p n bs _ r (pulled 0) in
    (
      m',
      free_data-kfree p m ∙ freed,
      λ f nothing. (
        bs',
        r',
        refill bs' i f (null, 0) fs.file_table cs inside
            (subst (λ q. Claims bs' ((q, f.size) ∷ set (claims fs.file_table cs) i (null, 0)))
              (sym nothing) (Claims-null bs' f.size _ h')),
      ),
      same,
    )

Claims-forget :
    (bs : Blocks) (i n : ℕ) (cs : List (ℕ × ℕ)) → Claims bs cs → Claims bs (set cs i (null, n))
Claims-forget bs i n cs h = (Claims-pull bs i n cs h).2

-- A slot takes an entry without data, and its own data, if any, is lost.
pub null_entry :
    (i : ℕ) (f : File) (cs : List (ℕ × ℕ)) (fs : Fs) (m : Memory)
    → i < length fs.file_table
    → f.data_ptr ≡ null
    → InOrder cs fs m
    → InOrder cs (write_file i f fs) m
null_entry i f cs fs m inside nothing (bs, r, h) = (
  bs,
  r,
  subst (Claims bs)
      (ap (λ p. set (claims fs.file_table cs) i (p, f.size)) (sym nothing)
        ∙ claims-set fs.file_table i f cs inside)
      (Claims-forget bs i f.size (claims fs.file_table cs) h),
)

-- A claim may be given up.
pub forget :
    (p n : ℕ) (cs : List (ℕ × ℕ)) (fs : Fs) (m : Memory)
    → InOrder ((p, n) ∷ cs) fs m
    → InOrder cs fs m
forget p n cs fs m (bs, r, h) = (bs, r, (Claims-front bs p n (data_of fs.file_table) cs h).2)

-- The claims of others may change their order.
pub InOrder-front :
    (p n : ℕ) (xs cs : List (ℕ × ℕ)) (fs : Fs) (m : Memory)
    → InOrder (xs ++ ((p, n) ∷ cs)) fs m
    → InOrder ((p, n) ∷ (xs ++ cs)) fs m
InOrder-front p n xs cs fs m (bs, r, h) =
    let ds = data_of fs.file_table in
    (
      bs,
      r,
      Claims-behind bs p n ds (xs ++ cs) (
          subst (λ c. Claims bs ((p, n) ∷ c)) (append_assoc ds xs cs)
            (Claims-front bs p n (ds ++ xs) cs
              (subst (Claims bs) (sym (append_assoc ds xs ((p, n) ∷ cs))) h))),
    )

-- A claim has its room.
pub held_room :
    (p n : ℕ) (cs : List (ℕ × ℕ)) (fs : Fs) (m : Memory)
    → p ≢ null
    → InOrder ((p, n) ∷ cs) fs m
    → n ≤ room p m
unfolding room
held_room p n cs fs m set_p (bs, r, h) = elim (Claims-front bs p n (data_of fs.file_table) cs h).0 [
  | inl nothing ↦ absurd (set_p nothing)
  | inr (s, uses, fits) ↦
      let (pre, post, shape, at) = found heap_begin p s bs uses in
      let size = old_size pre s post m (subst (Represents m) shape r) in
      omega (arith, fits, ap (λ q. room q m) at, size)
]
