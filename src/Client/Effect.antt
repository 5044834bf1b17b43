-- ===== src/Client/Effect.antt =====
-- The effects of the client: a call of the transport on the state of the world behind it, the lines
-- that are printed, and exceptions.
use a2a_hub.Prelude.{ℕ, List, [], ◌∷◌, ◌++◌, Option}
use a2a_hub.Prelude.Text.{Str}
use a2a_hub.Json.{Json, Fields}

-- `refused` is a `ClientError` with its text, `crashed` any other exception.
pub data Outcome {ℓ} (A : Type ℓ) : Type ℓ where
  ok : A → Outcome A
  refused : Str → Outcome A
  crashed : Outcome A

-- One print: what it shows. Its sentence is left out.
pub data Line : Type 0 where
  help_text : Line
  options_of : (command : Str) (flags : List Str) → Line
  session_usage : Line
  unknown_option : (command : Str) (unknown accepted : List Str) → Line
  shared_session : (identity : Str) → Line
  identity_is : Str → Line
  hub_is : Str → Line
  json_text : Json → Line
  mailbox_of : (identity : Str) (returned total pages : Json) → Line
  addressed : (session broadcast unclassified : ℕ) → Line
  never_introduced : (session : Str) → Line
  not_whole : (returned total : Json) → Line
  hidden_closed : ℕ → Line
  hidden_old : ℕ → Line
  task_line : Json → Line
  mark_usage : (command : Str) → Line
  nothing_recorded : (command : Str) → Line
  marked_as : (state task_id : Json) → Line
  sent_marks : List Json → Line
  own_marks : (marked : Fields) (closed : List Json) → Line
  refusing_shared : (identity : Str) → Line
  introduced : (identity role : Json) → Line
  warned : Json → Line
  not_in_register : (identity : Json) → Line
  status_of : (identity status : Json) → Line
  retired : (identity : Json) → Line
  nobody_quiet : Json → Line
  agent_line : Json → Line
  receipt : (recipient : Str) (task : Json) → Line
  client_error : Str → Line

pub record World (S : Type 0) : Type 0 where
  pub hub : S
  pub printed : List Line

abbrev pub M : Type 0 → Type 0 → Type 0
M S A = World S → Outcome A × World S

abbrev pub pure : {S A : Type 0} → A → M S A
pure a w = (ok a, w)

-- what follows an outcome
abbrev pub continue : {S A B : Type 0} → Outcome A × World S → (A → M S B) → Outcome B × World S
continue (ok a, w) f = f a w
continue (refused e, w) f = (refused e, w)
continue (crashed, w) f = (crashed, w)

infixl 5 ◌>>=◌ ◌>>◌
abbrev pub ◌>>=◌ : {S A B : Type 0} → M S A → (A → M S B) → M S B
◌>>=◌ m f w = continue (m w) f

abbrev pub ◌>>◌ : {S B : Type 0} → M S (Unit {0}) → M S B → M S B
m >> k = m >>= λ _. k

abbrev pub raise : {S A : Type 0} → Str → M S A
raise e w = (refused e, w)

abbrev pub of : {S A : Type 0} → Outcome A → M S A
of o w = (o, w)

abbrev pub print : {S : Type 0} → Line → M S (Unit {0})
print line w = (ok tt, record w { printed = w.printed ++ line ∷ [] })

-- `try: ... except ClientError: return default`
abbrev pub or_else : {S A : Type 0} → A → Outcome A × World S → Outcome A × World S
or_else default (ok a, w) = (ok a, w)
or_else default (refused e, w) = (ok default, w)
or_else default (crashed, w) = (crashed, w)

-- The HTTP layer: the decoded body of an answer, or `none` where it raises. `urlopen` raises on an
-- answer with an error status.
abbrev pub Transport : Type 0 → Type 0
Transport S = (url : Str) → Option Json → List (Str × Str) → S → Option Json × S
