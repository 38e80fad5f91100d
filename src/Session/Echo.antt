-- ===== src/Session/Echo.antt =====
-- What a client types and the server confirms in order leaves the echo as it was.
use oxiterm.Common.{
  ◌≡◌, refl, sym, ap, ◌∙◌, [], ◌∷◌, ◌++◌, append-nil, append_assoc, ==_iff, if◌then◌else◌,
}
use oxiterm.Common.Texts.{Text}
use oxiterm.Session.{PredictiveEcho, push_echo, confirm, confirmed}

pub push_all : PredictiveEcho → Text → PredictiveEcho
unfolding push_echo
push_all e [] = e
push_all e (ch ∷ s) = push_all (push_echo e ch) s

pub confirm_all : PredictiveEcho → Text → PredictiveEcho
unfolding confirm
confirm_all e [] = e
confirm_all e (ch ∷ s) = confirm_all (confirm e ch) s

push_all-buffer :
    (e : PredictiveEcho) (s : Text) → push_all e s ≡ record e { buffer = e.buffer ++ s }
unfolding push_all
push_all-buffer e [] = ap (λ b. record e { buffer = b }) (sym (append-nil e.buffer))
push_all-buffer e (ch ∷ s) =
    push_all-buffer (push_echo e ch) s
    ∙ ap (λ b. record e { buffer = b }) (append_assoc e.buffer (ch ∷ []) s)

confirm_all-buffer :
    (s rest : Text) (e : PredictiveEcho)
    → e.buffer ≡ s ++ rest
    → confirm_all e s ≡ record e { buffer = rest }
unfolding confirm_all
confirm_all-buffer [] rest e h = ap (λ b. record e { buffer = b }) h
confirm_all-buffer (ch ∷ s) rest e h = confirm_all-buffer s rest (confirm e ch) (
    ap (λ b. confirmed b ch) h
    ∙ ap (λ b. if b then s ++ rest else ch ∷ (s ++ rest)) ((==_iff ch ch).1 refl))

-- From an empty echo, what is typed and then confirmed in order leaves it empty.
pub confirm-push :
    (e : PredictiveEcho) (s : Text) → e.buffer ≡ [] → confirm_all (push_all e s) s ≡ e
confirm-push e s h =
    confirm_all-buffer s [] (push_all e s) (
      ap (λ (x : PredictiveEcho). x.buffer) (push_all-buffer e s)
      ∙ ap (λ b. b ++ s) h
      ∙ sym (append-nil s))
    ∙ ap (λ (x : PredictiveEcho). record x { buffer = [] }) (push_all-buffer e s)
    ∙ ap (λ b. record e { buffer = b }) (sym h)
