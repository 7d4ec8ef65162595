-- ===== src/Sensor/Limited.antt =====
-- The limit on the body: what the application receives, what is refused, and that the loop ends.
use mathlib.Core.Option
use mathlib.Core.List.{append-nil}
use seclab.Prelude.{
  length-append, ℕ, zero, suc, ◌+◌, ◌≡◌, ◌≤◌, ◌<◌, ◌⊎◌, any, ◌==◌, refl, sym, ap, ◌∙◌, true, false,
  Option, none, some, [], ◌∷◌, ◌++◌, length, arith, ltb, Bool-cases, inl, inr, if◌then◌else◌,
}
use seclab.Prelude.Text.{Text, codes, text_eq, text_beq, text_beq_sound}
use seclab.Sensor.Body.{
  Message, http_request, http_disconnect, Scope, payload_too_large, Reading, too_large, buffered,
  Outcome, answered, passed_on, read_chunk, read_body, replay_receive, outcome_of, is_limited, call,
}

body_of : Message → Text
body_of (http_request chunk more_body) = chunk
body_of http_disconnect = []

some_injective : {A : Type 0} (a b : A) → some a ≡ some b → a ≡ b
some_injective a b e = ap (λ (o : Option _). elim o [ some x ↦ x | none ↦ a ]) e

module _ (receive : ℕ → Message) (max_bytes : ℕ) where
  -- The bodies of the first messages.
  unfoldable pub chunks : ℕ → Text
  unfolding body_of
  chunks zero = []
  chunks (suc n) = chunks n ++ body_of (receive n)

  -- The loop read the messages to the end, within the limit, or found more than the limit allows.
  abbrev pub IsReading : Reading → Type 0
  IsReading too_large = (n : ℕ) × (max_bytes < length (chunks n))
  IsReading (buffered body n) = (body ≡ chunks n) × (length body ≤ max_bytes)

  read_chunk-IsReading :
      (m : Message) (n : ℕ) (body : Text) (again : Text → Option Reading) (r : Reading)
      → receive n ≡ m
      → body ≡ chunks n
      → length body ≤ max_bytes
      → ((b : Text) → b ≡ chunks (suc n) → length b ≤ max_bytes → again b ≡ some r → IsReading r)
      → read_chunk receive max_bytes m n body again ≡ some r
      → IsReading r
  unfolding read_chunk
  read_chunk-IsReading http_disconnect n body again r is_m same le k h =
      rw (← some_injective _ r h)
        (same ∙ unfold chunks in rw is_m (sym (append-nil (chunks n))), le)
  read_chunk-IsReading (http_request chunk more_body) n body again r is_m same le k h =
      let all_chunks : body ++ chunk ≡ chunks (suc n) = unfold chunks in rw (is_m, same) refl in
      elim (Bool-cases (ltb max_bytes (length (body ++ chunk)))) [
        | inl e ↦
            rw (← some_injective _ r (rw (e, if◌then◌else◌) at h))
              (suc n, rw (← all_chunks) (ground (arith, e)))
        | inr e ↦ elim (Bool-cases more_body) [
          | inl more ↦
              k (body ++ chunk) all_chunks (ground (arith, e)) (rw (e, more, if◌then◌else◌) at h)
          | inr last ↦
              rw (← some_injective _ r (rw (e, last, if◌then◌else◌) at h))
                (all_chunks, ground (arith, e))
        ]
      ]

  read_body-IsReading :
      (fuel n : ℕ) (body : Text) (r : Reading)
      → body ≡ chunks n
      → length body ≤ max_bytes
      → read_body receive max_bytes fuel n body ≡ some r
      → IsReading r
  unfolding read_body
  read_body-IsReading zero n body r same le h = absurd (ground (arith, h))
  read_body-IsReading (suc fuel) n body r same le h =
      read_chunk-IsReading (receive n) n body _ r refl same le
        (λ b is_b short. read_body-IsReading fuel (suc n) b r is_b short) h

  -- Every chunk that is followed by another brings a byte.
  abbrev pub IsProgress : Message → Type 0
  IsProgress (http_request chunk more_body) = more_body ≡ true → 1 ≤ length chunk
  IsProgress http_disconnect = Unit

  read_chunk-Returns :
      (m : Message) (n : ℕ) (body : Text) (again : Text → Option Reading)
      → IsProgress m
      → ((b : Text)
          → length body < length b
          → length b ≤ max_bytes
          → (r : Reading) × (again b ≡ some r))
      → (r : Reading) × (read_chunk receive max_bytes m n body again ≡ some r)
  unfolding read_chunk
  read_chunk-Returns http_disconnect n body again p k = (buffered body (suc n), refl)
  read_chunk-Returns (http_request chunk more_body) n body again p k =
      elim (Bool-cases (ltb max_bytes (length (body ++ chunk)))) [
        | inl e ↦ (too_large, rw e refl)
        | inr e ↦ elim (Bool-cases more_body) [
          | inl more ↦
              let grown = length-append body chunk in
              let byte = p more in
              let (r, found) = k (body ++ chunk) (omega (arith, grown, byte)) (ground (arith, e)) in
              (r, rw (e, more) found)
          | inr last ↦ (buffered (body ++ chunk) (suc n), rw (e, last) refl)
        ]
      ]

  read_body-Returns :
      ((n : ℕ) → IsProgress (receive n))
      → (fuel n : ℕ) (body : Text) → max_bytes < length body + fuel
      → length body ≤ max_bytes
      → (r : Reading) × (read_body receive max_bytes fuel n body ≡ some r)
  unfolding read_body
  read_body-Returns p zero n body h le = absurd (omega (arith, h, le))
  read_body-Returns p (suc fuel) n body h le =
      read_chunk-Returns (receive n) n body _ (p n)
        (λ b more short. read_body-Returns p fuel (suc n) b (omega (arith, h, more)) short)

  -- The application is called with the whole body, within the limit, as its first message, and
  -- behind it with the messages of the server that were not read.
  pub record IsAccepted (messages : ℕ → Message) : Type 0 where
    pub read : ℕ
    pub first : messages 0 ≡ http_request (chunks read) false
    pub bounded : length (chunks read) ≤ max_bytes
    pub rest : (k : ℕ) → messages (suc k) ≡ receive (read + k)

  -- A request is refused only if its messages bring more than the limit.
  abbrev pub IsLimited : Outcome → Type 0
  IsLimited (answered a) = (a ≡ payload_too_large) × ((n : ℕ) × (max_bytes < length (chunks n)))
  IsLimited (passed_on messages) = IsAccepted messages

  outcome_of-IsLimited : (r : Reading) → IsReading r → IsLimited (outcome_of receive max_bytes r)
  unfolding outcome_of replay_receive
  outcome_of-IsLimited too_large h = (refl, h)
  outcome_of-IsLimited (buffered body n) (same, le) = record {
    read = n;
    first = rw same refl;
    bounded = rw (← same) le;
    rest = λ k. refl;
  }

  map-IsLimited :
      (o : Option Reading) (outcome : Outcome)
      → ((r : Reading) → o ≡ some r → IsReading r)
      → Option.map (outcome_of receive max_bytes) o ≡ some outcome
      → IsLimited outcome
  map-IsLimited none outcome k h = absurd (ground (arith, h))
  map-IsLimited (some r) outcome k h =
      rw (← some_injective _ outcome h) (outcome_of-IsLimited r (k r refl))

  -- A request whose body is limited.
  abbrev pub IsUpload : Scope → Type 0
  IsUpload scope =
      (scope.type ≡ codes "http")
      × ((scope.method ≡ codes "POST")
          ⊎ ((scope.method ≡ codes "PUT") ⊎ (scope.method ≡ codes "PATCH")))

  -- What becomes of a request: limited, or the messages of the server as they are.
  abbrev pub IsGuarded : Scope → Outcome → Type 0
  IsGuarded scope outcome =
      (IsUpload scope × IsLimited outcome) ⊎ (¬ IsUpload scope × (outcome ≡ passed_on receive))

  method_cases :
      (method : Text)
      → any (λ m. m == method) (codes "POST" ∷ codes "PUT" ∷ codes "PATCH" ∷ []) ≡ true
      → (method ≡ codes "POST") ⊎ ((method ≡ codes "PUT") ⊎ (method ≡ codes "PATCH"))
  unfolding any
  method_cases method h = elim (Bool-cases (text_beq (codes "POST") method)) [
    | inl e ↦ inl (sym (text_beq_sound _ method e))
    | inr not_post ↦ elim (Bool-cases (text_beq (codes "PUT") method)) [
      | inl e ↦ inr (inl (sym (text_beq_sound _ method e)))
      | inr not_put ↦
          inr (inr (sym (text_beq_sound _ method (ground (arith, h, not_post, not_put)))))
    ]
  ]

  is_limited-IsUpload : (scope : Scope) → is_limited receive max_bytes scope ≡ true → IsUpload scope
  unfolding is_limited
  is_limited-IsUpload scope h = (
    text_beq_sound scope.type _ (ground (arith, h)),
    method_cases scope.method (ground (arith, h)),
  )

  is_limited_of_IsUpload :
      (scope : Scope) → IsUpload scope → is_limited receive max_bytes scope ≡ true
  unfolding is_limited any codes text_beq
  is_limited_of_IsUpload scope (e, inl m) = rw (e, m) refl
  is_limited_of_IsUpload scope (e, inr (inl m)) = rw (e, m) refl
  is_limited_of_IsUpload scope (e, inr (inr m)) = rw (e, m) refl

  -- The body of every HTTP request with the method POST, PUT or PATCH, whatever chunks it comes in
  -- and whatever length it announces, is limited: the application is called only with the
  -- concatenation of the chunks that were read, as one message of at most the bytes that are
  -- allowed, followed by the messages not read; and it is answered with 413 instead only if the
  -- chunks have more bytes than that. For every other request the application receives the
  -- messages of the server as they are, whatever body a DELETE may have.
  pub call-IsLimited :
      (fuel : ℕ) (scope : Scope) (outcome : Outcome)
      → call receive max_bytes fuel scope ≡ some outcome
      → IsGuarded scope outcome
  unfolding call
  call-IsLimited fuel scope outcome h = elim (Bool-cases (is_limited receive max_bytes scope)) [
    | inl limited ↦ inl (
      is_limited-IsUpload scope limited,
      map-IsLimited (read_body receive max_bytes fuel 0 []) outcome
          (λ r. read_body-IsReading fuel 0 [] r (unfold chunks in refl) (omega arith))
          (rw (limited, if◌then◌else◌) at h),
    )
    | inr other ↦ inr (
      λ u. ground (arith, other, is_limited_of_IsUpload scope u),
      sym (some_injective _ outcome (rw (other, if◌then◌else◌) at h)),
    )
  ]

  -- The loop ends after at most one message more than the bytes that are allowed, if every chunk
  -- that announces another has a byte: every request then has an outcome.
  pub call-Returns :
      (scope : Scope)
      → ((n : ℕ) → IsProgress (receive n))
      → (outcome : Outcome) × (call receive max_bytes (suc max_bytes) scope ≡ some outcome)
  unfolding call
  call-Returns scope p = elim (Bool-cases (is_limited receive max_bytes scope)) [
    | inl limited ↦
        let (r, found) = read_body-Returns p (suc max_bytes) 0 [] (omega arith) (omega arith) in
        (outcome_of receive max_bytes r, rw (limited, found) refl)
    | inr open_ended ↦ (passed_on receive, rw open_ended refl)
  ]
