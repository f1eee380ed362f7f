-- ===== src/Nano/Sizes.antt =====
-- The arrays of the editor of src/kernel/shell.c never grow.
use kontol_os.Base.{
  ℕ, zero, suc, ◌+◌, ◌-◌, ◌*◌, ◌≤◌, ◌<◌, ◌≡◌, refl, ap, ◌∙◌, inl, inr, ◌&&◌, ◌||◌, Option, none,
  some, List, [], ◌∷◌, arith, ◌==◌, ltb, leb, length, length-set, set, Bool-cases, Whenever,
  Whenever-bind, Whenever-map, Whenever-if, ◌^◌, subst,
}
use kontol_os.CString.{CString, deref, advance, strlen, strcpy, strncpy, strcat, pad, put}
use kontol_os.Shell.Files.{take_line, after_line, string_at}
use kontol_os.Nano.Storage.{load_lines, total_size, kept, start, new_line}
use kontol_os.Nano.{
  Editor, line_at, end_at, copy_line, shift_left, shift_right, shift_up, shift_down, delete_char,
  merge_line, split_line, insert_char, edit, clamp, press,
}

-- An array of the same size.
abbrev Like : List ℕ → List ℕ → Type 0
Like d d' = length d' ≡ length d

put-Like :
    (c x : ℕ) (d : List ℕ) (r : Option (List ℕ))
    → Whenever (Like d) r
    → Whenever (Like (x ∷ d)) (put c r)
put-Like c x d none h = tt
put-Like c x d (some d') h = ap suc h

strcpy-Like : (d : List ℕ) (s : CString) → Whenever (Like d) (strcpy d s)
unfolding strcpy
strcpy-Like [] s = tt
strcpy-Like (x ∷ d) s = elim (Bool-cases (deref s == 0)) [
  | inl end ↦ rw end refl
  | inr more ↦ rw more (put-Like (deref s) x d _ (strcpy-Like d (advance s)))
]

strcat-Like : (d : List ℕ) (s : CString) → Whenever (Like d) (strcat d s)
unfolding strcat
strcat-Like [] s = tt
strcat-Like (x ∷ d) s = elim (Bool-cases (x == 0)) [
  | inl end ↦ rw end (strcpy-Like (x ∷ d) s)
  | inr more ↦ rw more (put-Like x x d _ (strcat-Like d s))
]

end_at-Like : (k : ℕ) (d : List ℕ) → Whenever (Like d) (end_at k d)
unfolding end_at
end_at-Like k d = elim (Bool-cases (ltb k (length d))) [
  | inl inside ↦ rw inside (length-set d k 0)
  | inr outside ↦ rw outside tt
]

shift_left-Like : (n i : ℕ) (d : List ℕ) → Like d (shift_left n i d)
unfolding shift_left
shift_left-Like zero i d = refl
shift_left-Like (suc n) i d = shift_left-Like n (i + 1) _ ∙ length-set d i _

shift_right-Like : (n i : ℕ) (d : List ℕ) → Like d (shift_right n i d)
unfolding shift_right
shift_right-Like zero i d = refl
shift_right-Like (suc n) i d = shift_right-Like n (i - 1) _ ∙ length-set d i _

-- Every array has at most 80 bytes.
abbrev pub Narrow : List (List ℕ) → Type 0
Narrow [] = Unit
Narrow (d ∷ ds) = (length d ≤ 80) × Narrow ds

Narrow-get : (ls : List (List ℕ)) (i : ℕ) → Narrow ls → length (line_at i ls) ≤ 80
Narrow-get [] i h = omega arith
Narrow-get (d ∷ ds) zero (a, h) = a
Narrow-get (d ∷ ds) (suc i) (a, h) = Narrow-get ds i h

pub Narrow-set :
    (ls : List (List ℕ)) (i : ℕ) (d : List ℕ) → length d ≤ 80 → Narrow ls → Narrow (set ls i d)
Narrow-set [] i d small h = tt
Narrow-set (x ∷ ls) zero d small (a, h) = (small, h)
Narrow-set (x ∷ ls) (suc i) d small (a, h) = (a, Narrow-set ls i d small h)

-- A line takes an array of the size of one that is there.
Narrow-Like :
    (ls : List (List ℕ)) (i j : ℕ) (d : List ℕ)
    → Like (line_at j ls) d
    → Narrow ls
    → Narrow (set ls i d)
Narrow-Like ls i j d like h = Narrow-set ls i d (omega (arith, like, Narrow-get ls j h)) h

copy_line-Narrow :
    (src dst : ℕ) (ls : List (List ℕ)) → Narrow ls → Whenever Narrow (copy_line src dst ls)
unfolding copy_line
copy_line-Narrow src dst ls h =
    Whenever-map (Like (line_at dst ls)) Narrow _ _ (strcpy-Like (line_at dst ls) _)
      (λ d like. Narrow-Like ls dst dst d like h)

shift_up-Narrow : (n i : ℕ) (ls : List (List ℕ)) → Narrow ls → Whenever Narrow (shift_up n i ls)
unfolding shift_up
shift_up-Narrow zero i ls h = h
shift_up-Narrow (suc n) i ls h =
    Whenever-bind Narrow Narrow (copy_line (i + 1) i ls) _ (copy_line-Narrow (i + 1) i ls h)
      (λ ls' h'. shift_up-Narrow n (i + 1) ls' h')

shift_down-Narrow : (n i : ℕ) (ls : List (List ℕ)) → Narrow ls → Whenever Narrow (shift_down n i ls)
unfolding shift_down
shift_down-Narrow zero i ls h = h
shift_down-Narrow (suc n) i ls h =
    Whenever-bind Narrow Narrow (copy_line (i - 1) i ls) _ (copy_line-Narrow (i - 1) i ls h)
      (λ ls' h'. shift_down-Narrow n (i - 1) ls' h')

-- At most 100 lines of at most 80 bytes.
abbrev pub Small : Editor → Type 0
Small e = Narrow e.lines × (e.num_lines ≤ 100)

merge_line-Small : (e : Editor) → Small e → Whenever Small (merge_line e)
unfolding merge_line
merge_line-Small e (h, n) =
    let row = e.cur_line - 1 in
    Whenever-bind (Like (line_at row e.lines)) Small _ _ (strcat-Like (line_at row e.lines) _)
      (λ joined like.
        Whenever-bind Narrow Small _ _
          (shift_up-Narrow _ _ _ (Narrow-Like e.lines row row joined like h))
          (λ ls h1.
            Whenever-map (Like (line_at (e.num_lines - 1) ls)) Small _ _
              (end_at-Like 0 (line_at (e.num_lines - 1) ls))
              (λ b like2. (Narrow-Like ls _ _ b like2 h1, omega arith))))

split_line-Small : (e : Editor) → e.num_lines < 100 → Small e → Whenever Small (split_line e)
unfolding split_line
split_line-Small e room (h, n) =
    let row = e.cur_line in
    Whenever-bind Narrow Small _ _ (shift_down-Narrow _ _ _ h) (λ ls h1.
      Whenever-bind (Like (line_at (row + 1) ls)) Small _ _ (strcpy-Like (line_at (row + 1) ls) _)
        (λ below like.
          let h2 = Narrow-Like ls (row + 1) (row + 1) below like h1 in
          Whenever-map (Like (line_at row (set ls (row + 1) below))) Small _ _
            (end_at-Like e.cur_col (line_at row (set ls (row + 1) below)))
            (λ above like2.
              (Narrow-Like (set ls (row + 1) below) row row above like2 h2, omega arith))))

insert_char-Small : (c : ℕ) (e : Editor) → Small e → Whenever Small (insert_char c e)
unfolding insert_char
insert_char-Small c e (h, n) =
    let d = line_at e.cur_line e.lines in
    elim (Bool-cases (ltb (strlen d + 1) (length d))) [
      | inr full ↦ rw full tt
      | inl room ↦ rw room (
        Narrow-Like e.lines e.cur_line e.cur_line _
            (length-set (shift_right _ _ d) e.cur_col c ∙ shift_right-Like _ _ d) h,
        n,
      )
    ]

edit-Small : (c : ℕ) (e : Editor) → Small e → Whenever Small (edit c e)
unfolding edit delete_char
edit-Small c e (h, n) =
    let d = line_at e.cur_line e.lines in
    let deleted : Small (delete_char e) =
      (Narrow-Like e.lines e.cur_line e.cur_line _ (shift_left-Like _ _ d) h, n) in
    Whenever-if Small (c == 8) _ _
      (λ back.
        Whenever-if Small (ltb 0 e.cur_col) _ _ (λ behind. deleted)
          (λ start.
            Whenever-if Small (ltb 0 e.cur_line) _ _ (λ below. merge_line-Small e (h, n))
              (λ first. (h, n))))
      (λ other.
        Whenever-if Small (c == 10 || c == 13) _ _
          (λ enter.
            Whenever-if Small (ltb e.num_lines 100) _ _
              (λ room. split_line-Small e (ground arith) (h, n)) (λ full. (h, n)))
          (λ other2.
            Whenever-if Small (leb 32 c && ltb c 127) _ _
              (λ printable.
                Whenever-if Small (ltb (strlen d) 79) _ _ (λ room. insert_char-Small c e (h, n))
                  (λ full. (h, n)))
              (λ other3. (h, n))))

-- A round on any key keeps the sizes.
pub press-Small : (c : ℕ) (e : Editor) → Small e → Whenever Small (press c e)
unfolding press clamp
press-Small c e h = Whenever-map Small Small (edit c e) _ (edit-Small c e h) (λ e' h'. h')

strlen-bound : (s : CString) → strlen s ≤ length s
unfolding strlen
strlen-bound [] = omega arith
strlen-bound (c ∷ s) = ground (arith, strlen-bound s)

total-bound : (n i : ℕ) (ls : List (List ℕ)) → Narrow ls → total_size n i ls ≤ n * 81
unfolding total_size
total-bound zero i ls h = omega arith
total-bound (suc n) i ls h =
    omega (arith, total-bound n (i + 1) ls h, strlen-bound (line_at i ls), Narrow-get ls i h)

pub Small-total : (e : Editor) → Small e → total_size e.num_lines 0 e.lines < 2 ^ 31
Small-total e (h, n) = omega (arith, total-bound e.num_lines 0 e.lines h)

pad-Like : (d : List ℕ) (n : ℕ) → Whenever (Like d) (pad d n)
unfolding pad
pad-Like d zero = refl
pad-Like [] (suc n) = tt
pad-Like (x ∷ d) (suc n) = put-Like 0 x d _ (pad-Like d n)

pub strncpy-Like : (d : List ℕ) (s : CString) (n : ℕ) → Whenever (Like d) (strncpy d s n)
unfolding strncpy pad
strncpy-Like d s zero = refl
strncpy-Like [] s (suc n) = tt
strncpy-Like (x ∷ d) s (suc n) = elim (Bool-cases (deref s == 0)) [
  | inl end ↦ rw end (put-Like 0 x d _ (pad-Like d (suc n)))
  | inr more ↦ rw more (put-Like (deref s) x d _ (strncpy-Like d (advance s) n))
]

abbrev pub Loaded : ℕ × List (List ℕ) → Type 0
Loaded (k, ls) = (k ≤ 100) × Narrow ls

end_at-Like_of : (d b : List ℕ) (k : ℕ) → Like d b → Whenever (Like d) (end_at k b)
end_at-Like_of d b k like =
    subst (λ n. Whenever (λ b'. length b' ≡ n) (end_at k b)) like (end_at-Like k b)

pub load_lines-Narrow :
    (left num : ℕ) (p : CString) (ls : List (List ℕ))
    → left + num ≤ 100
    → Narrow ls
    → Whenever Loaded (load_lines left num p ls)
unfolding load_lines
load_lines-Narrow zero num p ls small h = (omega arith, h)
load_lines-Narrow (suc left) num p ls small h =
    let len = kept (length (take_line p)) in
    Whenever-if Loaded (deref p == 0) _ _ (λ end. (omega arith, h))
      (λ more.
        Whenever-bind (Like (line_at num ls)) Loaded _ _
          (Whenever-bind (Like (line_at num ls)) (Like (line_at num ls)) _ _
            (strncpy-Like (line_at num ls) p len)
            (λ b like. end_at-Like_of (line_at num ls) b len like))
          (λ b like.
            load_lines-Narrow left (num + 1) (after_line p) (set ls num b) (omega arith)
              (Narrow-Like ls num num b like h)))

pub start-Small : (num : ℕ) (ls : List (List ℕ)) → num ≤ 100 → Narrow ls → Small (start num ls)
unfolding start
start-Small num ls small h = (h, ground arith)

pub length-string_at : (n p : ℕ) (b : ℕ → ℕ) → length (string_at n p b) ≡ n
unfolding string_at
length-string_at zero p b = refl
length-string_at (suc n) p b = ap suc (length-string_at n (p + 1) b)

pub new_line-bound : (p : ℕ) (b : ℕ → ℕ) → length (new_line p b) ≤ 80
unfolding new_line
new_line-bound p b = elim (Bool-cases (p == 0)) [
  | inl nothing ↦ rw nothing (omega arith)
  | inr set_ptr ↦
      rw set_ptr (omega (arith, length-set (string_at 80 p b) 0 0, length-string_at 80 p b))
]
