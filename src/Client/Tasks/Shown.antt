-- ===== src/Client/Tasks/Shown.antt =====
-- The id of a listed message can be taken from its line.
use a2a_hub.Prelude.{
  ℕ, ◌≢◌, ◌≡◌, refl, sym, ap, ◌∙◌, false, Option, none, some, List, [], ◌∷◌, ◌++◌, append_assoc,
  append-nil, All, arith,
}
use a2a_hub.Prelude.Text.{Str, codes, is_space, rstrip, rstrip_cons, join, partition}
use a2a_hub.Json.{Json, str, Fields, get}
use a2a_hub.Client.Tasks.{
  ◌>>=◌, dict_or, text_or, list_or, artifact_lines, shown_or, after_id, head_line, format_task,
  id_shown,
}

rstrip_cons-solid : (c : ℕ) (r : Str) → is_space c ≡ false → rstrip_cons c r ≡ c ∷ r
rstrip_cons-solid c [] solid = rw solid refl
rstrip_cons-solid c (d ∷ r) solid = refl

rstrip_cons-append :
    (d : ℕ) (s : Str) (c : ℕ) (r : Str) → rstrip_cons d (s ++ c ∷ r) ≡ d ∷ (s ++ c ∷ r)
rstrip_cons-append d [] c r = refl
rstrip_cons-append d (e ∷ s) c r = refl

-- What follows a code point that is no space is trimmed by itself.
rstrip-append :
    (s : Str) (c : ℕ) (t : Str) → is_space c ≡ false → rstrip (s ++ c ∷ t) ≡ s ++ c ∷ rstrip t
unfolding rstrip
rstrip-append [] c t solid = rstrip_cons-solid c (rstrip t) solid
rstrip-append (d ∷ s) c t solid =
    ap (rstrip_cons d) (rstrip-append s c t solid) ∙ rstrip_cons-append d s c (rstrip t)

join-cons : (sep p : Str) (ps : List Str) → (rest : Str) × (join sep (p ∷ ps) ≡ p ++ rest)
unfolding join
join-cons sep p [] = ([], sym (append-nil p))
join-cons sep p (q ∷ ps) = (sep ++ join sep (q ∷ ps), append_assoc p sep (join sep (q ∷ ps)))

partition_before : (c : ℕ) (s t : Str) → All (λ d. d ≢ c) s → (partition c (s ++ c ∷ t)).before ≡ s
unfolding partition
partition_before c [] t h = ground arith
partition_before c (d ∷ s) t (hd, h) = ground (arith, partition_before c s t h)

-- Inversion of a bind that returns.
>>=-eq-some :
    {A B : Type 0} (m : Option A) (f : A → Option B) {b : B}
    → (m >>= f) ≡ some b
    → (a : A) × (m ≡ some a) × (f a ≡ some b)
>>=-eq-some none f h = cc h
>>=-eq-some (some a) f h = (a, refl, h)

bracket_solid : is_space b']' ≡ false
unfolding is_space
bracket_solid = refl

id_shown-line :
    (id state when : Str) (lines : List Str)
    → All (λ d. d ≢ b']') id
    → id_shown (join (codes "\n") (head_line id state when ∷ lines)) ≡ id
id_shown-line id state when lines plain =
    let head = head_line id state when in
    let (more, joined) = join-cons (codes "\n") head lines in
    let tail = after_id state when in
    let trimmed = rstrip-append (b'[' ∷ id) b']' tail bracket_solid in
    ap id_shown (joined ∙ ap (λ h. h ++ more) trimmed)
    ∙ ap (λ s. (partition b']' s).before) (append_assoc id (b']' ∷ rstrip tail) more)
    ∙ partition_before b']' id (rstrip tail ++ more) plain

-- If the id of a task is a text without a closing bracket and format_task returns a text, then what
-- stands between the brackets at the beginning of that text is the whole id.
pub id_shown-format_task :
    (repr : Json → Str) (task : Fields) (id text : Str)
    → get (codes "id") task ≡ some (str id)
    → All (λ d. d ≢ b']') id
    → format_task repr task ≡ some text
    → id_shown text ≡ id
unfolding format_task
id_shown-format_task repr task id text named plain h =
    let (status, _, h₁) = >>=-eq-some (dict_or (get (codes "status") task)) _ h in
    let (state, _, h₂) = >>=-eq-some (text_or (codes "?") (get (codes "state") status)) _ h₁ in
    let (when, _, h₃) = >>=-eq-some (text_or [] (get (codes "timestamp") status)) _ h₂ in
    let (artifacts, _, h₄) = >>=-eq-some (list_or (get (codes "artifacts") task)) _ h₃ in
    let (lines, _, h₅) = >>=-eq-some (artifact_lines repr artifacts) _ h₄ in
    let same : join (codes "\n")
          (head_line (shown_or repr (get (codes "id") task)) state when ∷ lines)
        ≡ text =
      cc h₅ in
    ap id_shown (sym same)
    ∙ ap (λ o. id_shown (join (codes "\n") (head_line (shown_or repr o) state when ∷ lines))) named
    ∙ id_shown-line id state when lines plain
