-- ===== src/Main/Requests/Answers.antt =====
-- bridge/src/main.rs: what the main request loop answers, and when it stops.
use brp_spec.Base.{
  ◌≡◌, ◌≢◌, ◌⊎◌, inl, inr, refl, sym, ap, ◌∙◌, Bool, true, false, List, [], ◌∷◌, ◌++◌, map,
  Bool-cases, string_eq,
}
use brp_spec.Json.{SerdeJson}
use brp_spec.Auth.{ConstantTimeEq}
use brp_spec.Message.{Codec, Response}
use brp_spec.Session.{SessionState, closed, exit}
use brp_spec.Router.State.{BridgeState}
use brp_spec.Router.Handle.{handle_request, handle_route, route}
use brp_spec.Router.Forward.{answered}
use brp_spec.Router.Replies.{RepliesTo, handle_request-IsReply}
use brp_spec.Main.Requests.{Round, Progress, is_closed, answer_request, serve_requests}

is_closed_sound : (state : SessionState) → is_closed state ≡ true → state ≡ closed
is_closed_sound closed h = refl
is_closed_sound state h = cc

is_closed_open : (state : SessionState) → is_closed state ≡ false → state ≢ closed
is_closed_open closed h = cc
is_closed_open state h = λ e. cc

module _ {S : Type 0} (J : SerdeJson) (codec : Codec J) (c : ConstantTimeEq) (allow : Bool) where
  open J use {Value}

  -- A message is the coding of a response to the request of its round: a reply of the router with
  -- the request's id, or what came on the request's channel.
  abbrev pub IsAnswer : Round S Value × Value → Type 0
  IsAnswer (round, message) =
      (r : Response Value) × (message ≡ codec.response r)
      × (RepliesTo round.request.id r ⊎ (round.others.wait_result ≡ answered r))

  abbrev pub AreAnswers : List (Round S Value × Value) → Type 0
  AreAnswers [] = Unit
  AreAnswers (m ∷ ms) = IsAnswer m × AreAnswers ms

  answer_request-IsAnswer :
      (round : Round S Value) (w : Progress S)
      → IsAnswer (round, (answer_request J codec c allow round w).1)
  unfolding answer_request
  answer_request-IsAnswer round w =
      let s = round.before_state w.state in
      let tokens = round.before_tokens w.tokens in
      let done =
        handle_request J codec c allow round.uuid round.io round.others s tokens round.request in
      let reply =
        handle_request-IsReply J codec c allow round.uuid round.io round.others s tokens
          round.request in
      (done.response, refl, elim reply [ inl own ↦ inl own | inr passed ↦ inr passed.0 ])

  -- The rounds one after the other, with no test of the session.
  abbrev pub progress_after : List (Round S Value) → Progress S → Progress S
  progress_after [] w = w
  progress_after (round ∷ rest) w = progress_after rest (answer_request J codec c allow round w).0

  -- After every round but the last one the session is not closed.
  abbrev pub StaysOpen : List (Round S Value) → Progress S → Type 0
  StaysOpen [] w = Unit
  StaysOpen (round ∷ []) w = Unit
  StaysOpen (round ∷ next ∷ rest) w =
      let w' = (answer_request J codec c allow round w).0 in
      (w'.state.session.state ≢ closed) × StaysOpen (next ∷ rest) w'

  StaysOpen-cons :
      (round : Round S Value) (rest : List (Round S Value)) (w : Progress S)
      → let w' = (answer_request J codec c allow round w).0 in
        w'.state.session.state ≢ closed → StaysOpen rest w' → StaysOpen (round ∷ rest) w
  StaysOpen-cons round [] w open_after h = tt
  StaysOpen-cons round (next ∷ rest) w open_after h = (open_after, h)

  -- The session is closed after a round.
  abbrev ends_loop : Round S Value → Progress S → Bool
  ends_loop round w = is_closed (answer_request J codec c allow round w).0.state.session.state

  serve-last :
      (round : Round S Value) (rest : List (Round S Value)) (w : Progress S)
      → ends_loop round w ≡ true
      → let (w', message) = answer_request J codec c allow round w in
        serve_requests J codec c allow (round ∷ rest) w ≡ ((round, message) ∷ [], w')
  unfolding serve_requests
  serve-last round rest w h = rw (serve_requests, h) refl

  serve-more :
      (round : Round S Value) (rest : List (Round S Value)) (w : Progress S)
      → ends_loop round w ≡ false
      → let (w', message) = answer_request J codec c allow round w in
        let later = serve_requests J codec c allow rest w' in
        serve_requests J codec c allow (round ∷ rest) w ≡ ((round, message) ∷ later.0, later.1)
  unfolding serve_requests
  serve-more round rest w h = rw (serve_requests, h) refl

  -- The loop serves the requests in their order and each once. Each message is the coding of a
  -- response to its request: a reply of the router with the request's id, or what came on the
  -- request's channel. It stops after the first round that leaves the session closed and not before
  -- it: after every served round but the last the session is not closed, and where later requests
  -- are left it is closed at the end. Where the loop ends is where the served requests lead.
  pub serve_requests-AreAnswers :
      (rounds : List (Round S Value)) (w : Progress S)
      → let r = serve_requests J codec c allow rounds w in
        let served = map (λ m. m.0) r.0 in
        AreAnswers r.0
        × StaysOpen served w
        × (r.1 ≡ progress_after served w)
        × ((left : List (Round S Value)) × (rounds ≡ served ++ left)
            × ((left ≡ []) ⊎ (r.1.state.session.state ≡ closed)))
  unfolding serve_requests
  serve_requests-AreAnswers [] w = (tt, tt, refl, ([], refl, inl refl))
  serve_requests-AreAnswers (round ∷ rest) w =
      let w' = (answer_request J codec c allow round w).0 in
      let answer = answer_request-IsAnswer round w in
      elim (Bool-cases (ends_loop round w)) [
        | inl t ↦
            let ended = is_closed_sound w'.state.session.state t in
            rw (serve-last round rest w t) ((answer, tt), tt, refl, (rest, refl, inr ended))
        | inr f ↦
            let (later, opens, leads, (left, e, why)) = serve_requests-AreAnswers rest w' in
            let served = map (λ m. m.0) (serve_requests J codec c allow rest w').0 in
            rw (serve-more round rest w f) (
              (answer, later),
              StaysOpen-cons round served w (is_closed_open w'.state.session.state f) opens,
              leads,
              (left, ap (λ l. round ∷ l) e, why),
            )
      ]

  exit_ends_loop :
      (round : Round S Value) (w : Progress S)
      → round.request.method ≡ "exit"
      → ((s : BridgeState S) → (round.before_test s).session.state ≡ s.session.state)
      → ends_loop round w ≡ true
  unfolding answer_request handle_request handle_route route exit
  exit_ends_loop round w e keeps = rw e (rw keeps refl)

  -- Once an `exit` request has been answered nothing more is served, whatever comes before it and
  -- after it, provided that no other task changes the state of the session before it is tested.
  serve_requests-exit :
      (earlier later : List (Round S Value)) (round : Round S Value) (w : Progress S)
      → round.request.method ≡ "exit"
      → ((s : BridgeState S) → (round.before_test s).session.state ≡ s.session.state)
      → serve_requests J codec c allow (earlier ++ (round ∷ later)) w
        ≡ serve_requests J codec c allow (earlier ++ (round ∷ [])) w
  serve_requests-exit [] later round w e keeps =
      let t = exit_ends_loop round w e keeps in
      serve-last round later w t ∙ sym (serve-last round [] w t)
  serve_requests-exit (first ∷ earlier) later round w e keeps =
      let w' = (answer_request J codec c allow first w).0 in
      elim (Bool-cases (ends_loop first w)) [
        | inl t ↦
            serve-last first (earlier ++ (round ∷ later)) w t
            ∙ sym (serve-last first (earlier ++ (round ∷ [])) w t)
        | inr f ↦
            rw
              (
                serve-more first (earlier ++ (round ∷ later)) w f,
                serve-more first (earlier ++ (round ∷ [])) w f,
                serve_requests-exit earlier later round w' e keeps,
              )
              refl
      ]
