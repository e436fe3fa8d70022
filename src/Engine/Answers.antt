-- ===== src/Engine/Answers.antt =====
-- When a request of the client succeeds: by the answer, and by what accepts its body.
use capstone_project_git_fla.Prelude.{ℕ, Bool, true, false, ◌≡◌, ◌↔◌, refl, Bytes, if◌then◌else◌}
use capstone_project_git_fla.Errors.{Result, ok, err, ok_injective, ◌>>=◌, ◌>>◌}
use capstone_project_git_fla.Engine.{
  Libraries, Sent, lost, answered, is_success, receive, problem_of,
}

-- The Agent Engine answers a request with a success, whose body is accepted.
abbrev pub AnswersWith : Sent → (Bytes → Type 0) → Type 0
AnswersWith sent P =
    (status : ℕ) × (text : Bytes) × (sent ≡ answered status text)
    × (is_success status ≡ true)
    × P text

module _ {A : Type 0} (decode_problem : Bytes → Bytes × Bytes) (accept : Bytes → Result A)
    (detail : Bytes) (r : A) where
  receive_sound :
      (sent : Sent)
      → receive decode_problem accept detail sent ≡ ok r
      → AnswersWith sent (λ text. accept text ≡ ok r)
  unfolding receive
  receive_sound (lost late) h = cc
  receive_sound (answered status body) h = step (is_success status) refl h
    where
      step :
          (b : Bool)
          → is_success status ≡ b
          → (if b then accept body else err (problem_of status (decode_problem body))) ≡ ok r
          → AnswersWith (answered status body) (λ text. accept text ≡ ok r)
      step true e h = (status, body, refl, e, h)
      step false e h = cc

  receive_complete :
      (sent : Sent)
      → AnswersWith sent (λ text. accept text ≡ ok r)
      → receive decode_problem accept detail sent ≡ ok r
  unfolding receive
  receive_complete sent (status, text, e, good, h) = rw (e, good) h

-- The request can be encoded and made, and is answered so.
abbrev pub Requests : Libraries → Result Bytes → Bytes → (Bytes → Type 0) → Type 0
Requests libraries encoded url P =
    (body : Bytes) × (encoded ≡ ok body)
    × (libraries.new_request url ≡ ok tt)
    × AnswersWith (libraries.send url body) P

module _ {A : Type 0} (libraries : Libraries) (url : Bytes) (accept : Bytes → Result A)
    (detail : Bytes) (r : A) where
  pub sent_iff :
      (encoded : Result Bytes)
      → ((encoded >>= λ body.
            libraries.new_request url
            >> receive libraries.decode_problem accept detail (libraries.send url body))
          ≡ ok r)
        ↔ Requests libraries encoded url (λ text. accept text ≡ ok r)
  sent_iff (err e) = ((λ h. cc), (λ (body, x, y, h). cc))
  sent_iff (ok body) = step (libraries.new_request url) refl
    where
      step :
          (made : Result (Unit {0}))
          → libraries.new_request url ≡ made
          → ((made >> receive libraries.decode_problem accept detail (libraries.send url body))
              ≡ ok r)
            ↔ Requests libraries (ok body) url (λ text. accept text ≡ ok r)
      step (err e) k = ((λ h. cc), (λ (b, x, y, h). cc))
      step (ok u) k = (
        (λ h. (
          body,
          refl,
          k,
          receive_sound libraries.decode_problem accept detail r (libraries.send url body) h,
        )),
        (λ (b, x, y, h).
            receive_complete libraries.decode_problem accept detail r (libraries.send url body)
              (rw (ok_injective body b x) h)),
      )

AnswersWith-map :
    (sent : Sent) (P Q : Bytes → Type 0)
    → ((text : Bytes) → P text → Q text)
    → AnswersWith sent P
    → AnswersWith sent Q
AnswersWith-map sent P Q f (status, text, e, good, h) = (status, text, e, good, f text h)

pub Requests_iff :
    (libraries : Libraries) (encoded : Result Bytes) (url : Bytes) (P Q : Bytes → Type 0)
    → ((text : Bytes) → P text ↔ Q text)
    → Requests libraries encoded url P ↔ Requests libraries encoded url Q
Requests_iff libraries encoded url P Q f = (
  (λ (b, x, y, h). (b, x, y, AnswersWith-map (libraries.send url b) P Q (λ t. (f t).0) h)),
  (λ (b, x, y, h). (b, x, y, AnswersWith-map (libraries.send url b) Q P (λ t. (f t).1) h)),
)
