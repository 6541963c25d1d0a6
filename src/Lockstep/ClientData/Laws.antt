-- ===== src/Lockstep/ClientData/Laws.antt =====
-- What the server may rely on about a client's buffer, whatever the client sends.
use kodiak.Base.{
  ℕ, ◌≤◌, ◌<◌, ◌≡◌, ◌∙◌, sym, ap, subst, refl, arith, true, false, some, List, [], ◌∷◌, length, leb,
  max, Bool-cases, if_cases, if_true, if_false, inl, inr, ◌⊎◌, All, leb→le,
}
use kodiak.Lockstep.World.{LockstepWorld}
use kodiak.Lockstep.Input.{LockstepInput, LockstepInputWindow, into_input_iter}
use kodiak.Lockstep.ClientData.{
  LockstepClientData, continues, stops, insertion_index, insert_at, receive_input, receive_inputs,
  receive,
}
use kodiak.Lockstep.ClientData.Buffer.{
  Rising, holds, Inserted, receive_cases, insertion_index_of_holds,
}

module _ (W : LockstepWorld) where
  pub record IsValid (client : LockstepClientData W) : Type 0 where
    pub rising : Rising client.last_applied_command_id client.receive_buffer
    pub bounded : length client.receive_buffer ≤ W.buffered_ticks

  -- Why an input changes nothing.
  abbrev pub Settled : LockstepClientData W → LockstepInput W.Input → Type 0
  Settled client c =
      (W.is_valid c.inner ≡ false)
      ⊎ (W.buffered_ticks ≤ length client.receive_buffer)
      ⊎ (c.input_id ≤ client.last_applied_command_id)
      ⊎ (holds c.input_id client.receive_buffer ≡ true)

  -- What one input can do: nothing, or be buffered under its id.
  data Received (client : LockstepClientData W) (c : LockstepInput W.Input) : Type 0 where
    ignored : receive_input W client c ≡ continues client → Settled client c → Received client c
    refused :
        receive_input W client c ≡ stops
        → W.buffered_ticks ≤ length client.receive_buffer
        → Received client c
    buffered :
        (client' : LockstepClientData W) (i : ℕ)
        → W.is_valid c.inner ≡ true
        → insertion_index c.input_id client.receive_buffer ≡ some i
        → receive_input W client c ≡ continues client'
        → ((n : ℕ) → Inserted n c client.receive_buffer client'.receive_buffer)
        → client.last_applied_command_id < c.input_id
        → length client.receive_buffer < W.buffered_ticks
        → client'.last_applied_command_id ≡ client.last_applied_command_id
        → client'.initialized ≡ client.initialized
        → Received client c

  received : (client : LockstepClientData W) (c : LockstepInput W.Input) → Received client c
  unfolding receive_input
  received client c = elim (Bool-cases (W.is_valid c.inner)) [
    | inr bad ↦ ignored (rw bad) (inl bad)
    | inl good ↦ elim (Bool-cases (leb W.buffered_ticks (length client.receive_buffer))) [
      | inl full ↦ refused (rw (good, full)) (leb→le _ _ full)
      | inr room ↦ elim (Bool-cases (leb c.input_id client.last_applied_command_id)) [
        | inl stale ↦ ignored (rw (good, room, stale)) (inr (inr (inl (leb→le _ _ stale))))
        | inr fresh ↦ elim (receive_cases c client.receive_buffer) [
          | inl (e, there) ↦ ignored (rw (good, room, fresh, e)) (inr (inr (inr there)))
          | inr (i, e, ins) ↦
              buffered
                (record client {
                  last_received_command_id = max client.last_received_command_id c.input_id;
                  receive_buffer = insert_at client.receive_buffer i c;
                })
                i good e (rw (good, room, fresh, e)) ins (ground arith) (ground arith) refl refl
        ]
      ]
    ]
  ]

  buffered-IsValid :
      (client client' : LockstepClientData W) (c : LockstepInput W.Input)
      → IsValid client
      → ((n : ℕ) → Inserted n c client.receive_buffer client'.receive_buffer)
      → client.last_applied_command_id < c.input_id
      → length client.receive_buffer < W.buffered_ticks
      → client'.last_applied_command_id ≡ client.last_applied_command_id
      → IsValid client'
  buffered-IsValid client client' c v ins above room same = record {
    rising = rw same ((ins client.last_applied_command_id).rising above v.rising);
    bounded = omega (arith, (ins 0).size);
  }

  pub receive_inputs-IsValid :
      (client : LockstepClientData W) (cs : List (LockstepInput W.Input))
      → IsValid client
      → IsValid (receive_inputs W client cs)
  unfolding receive_inputs
  receive_inputs-IsValid client [] v = v
  receive_inputs-IsValid client (c ∷ cs) v =
      by_case (received client c) (λ client'. receive_inputs-IsValid client' cs)
    where
      by_case :
          Received client c
          → ((client' : LockstepClientData W)
              → IsValid client'
              → IsValid (receive_inputs W client' cs))
          → IsValid (receive_inputs W client (c ∷ cs))
      by_case (ignored e s) ih = rw (e, receive_inputs) (ih client v)
      by_case (refused e f) ih = rw (e, receive_inputs) v
      by_case (buffered client' n good at e ins above room same i) ih =
          rw (e, receive_inputs)
            (ih client' (buffered-IsValid client client' c v ins above room same))

  -- On valid client data, whatever window arrives, the buffer keeps rising ids, all above the last
  -- applied one, and at most its capacity.
  pub receive-IsValid :
      (client : LockstepClientData W) (w : LockstepInputWindow W.Input)
      → IsValid client
      → IsValid (receive W client w)
  unfolding receive
  receive-IsValid client w v =
      if_cases IsValid client.initialized (λ e. receive_inputs-IsValid client (into_input_iter w) v)
        (λ e. v)

  -- An input that changes nothing goes on changing nothing.
  Settled-ignored :
      (client : LockstepClientData W) (c : LockstepInput W.Input)
      → IsValid client
      → Settled client c
      → (receive_input W client c ≡ continues client) ⊎ (receive_input W client c ≡ stops)
  Settled-ignored client c v s = by_case (received client c) s
    where
      by_case :
          Received client c
          → Settled client c
          → (receive_input W client c ≡ continues client) ⊎ (receive_input W client c ≡ stops)
      by_case (ignored e _) s = inl e
      by_case (refused e _) s = inr e
      by_case (buffered client' n good at e ins above room same i) (inl bad) = cc
      by_case (buffered client' n good at e ins above room same i) (inr (inl full)) =
          absurd (omega arith)
      by_case (buffered client' n good at e ins above room same i) (inr (inr (inl stale))) =
          absurd (omega arith)
      by_case (buffered client' n good at e ins above room same i) (inr (inr (inr there))) = cc (
          insertion_index_of_holds client.last_applied_command_id c.input_id client.receive_buffer
            v.rising there)

  Settled-buffered :
      (client client' : LockstepClientData W) (c d : LockstepInput W.Input)
      → ((n : ℕ) → Inserted n d client.receive_buffer client'.receive_buffer)
      → client'.last_applied_command_id ≡ client.last_applied_command_id
      → Settled client c
      → Settled client' c
  Settled-buffered client client' c d ins same (inl bad) = inl bad
  Settled-buffered client client' c d ins same (inr (inl full)) =
      inr (inl (omega (arith, (ins 0).size)))
  Settled-buffered client client' c d ins same (inr (inr (inl stale))) =
      inr (inr (inl (omega arith)))
  Settled-buffered client client' c d ins same (inr (inr (inr there))) =
      inr (inr (inr (ground (arith, (ins 0).held c.input_id, there))))

  -- Inputs that change nothing leave the data as it is.
  receive_inputs-Settled :
      (client : LockstepClientData W) (cs : List (LockstepInput W.Input))
      → IsValid client
      → All (Settled client) cs
      → receive_inputs W client cs ≡ client
  unfolding receive_inputs
  receive_inputs-Settled client [] v s = refl
  receive_inputs-Settled client (c ∷ cs) v s = elim (Settled-ignored client c v s.0) [
    | inl e ↦ rw (e, receive_inputs) (receive_inputs-Settled client cs v s.1)
    | inr e ↦ rw (e, receive_inputs)
  ]

  All-full :
      (client : LockstepClientData W) (cs : List (LockstepInput W.Input))
      → W.buffered_ticks ≤ length client.receive_buffer
      → All (Settled client) cs
  All-full client [] f = tt
  All-full client (c ∷ cs) f = (inr (inl f), All-full client cs f)

  -- What is settled for the data that a loop starts from is settled for what it ends with.
  receive_inputs-keeps :
      (client : LockstepClientData W) (cs : List (LockstepInput W.Input))
      (c : LockstepInput W.Input)
      → Settled client c
      → Settled (receive_inputs W client cs) c
  unfolding receive_inputs
  receive_inputs-keeps client [] c s = s
  receive_inputs-keeps client (d ∷ cs) c s =
      by_case (received client d) (λ client'. receive_inputs-keeps client' cs c)
    where
      by_case :
          Received client d
          → ((client' : LockstepClientData W)
              → Settled client' c
              → Settled (receive_inputs W client' cs) c)
          → Settled (receive_inputs W client (d ∷ cs)) c
      by_case (ignored e _) ih = rw (e, receive_inputs) (ih client s)
      by_case (refused e _) ih = rw (e, receive_inputs) s
      by_case (buffered client' n good at e ins above room same i) ih =
          rw (e, receive_inputs) (ih client' (Settled-buffered client client' c d ins same s))

  receive_inputs_step :
      (client client' : LockstepClientData W) (c : LockstepInput W.Input)
      (cs : List (LockstepInput W.Input))
      → receive_input W client c ≡ continues client'
      → receive_inputs W client (c ∷ cs) ≡ receive_inputs W client' cs
  unfolding receive_inputs
  receive_inputs_step client client' c cs e = rw (e, receive_inputs)

  receive_inputs_stop :
      (client : LockstepClientData W) (c : LockstepInput W.Input)
      (cs : List (LockstepInput W.Input))
      → receive_input W client c ≡ stops
      → receive_inputs W client (c ∷ cs) ≡ client
  unfolding receive_inputs
  receive_inputs_stop client c cs e = rw (e, receive_inputs)

  receive_inputs-initialized :
      (client : LockstepClientData W) (cs : List (LockstepInput W.Input))
      → (receive_inputs W client cs).initialized ≡ client.initialized
  unfolding receive_inputs
  receive_inputs-initialized client [] = refl
  receive_inputs-initialized client (c ∷ cs) =
      by_case (received client c) (λ client'. receive_inputs-initialized client' cs)
    where
      by_case :
          Received client c
          → ((client' : LockstepClientData W)
              → (receive_inputs W client' cs).initialized ≡ client'.initialized)
          → (receive_inputs W client (c ∷ cs)).initialized ≡ client.initialized
      by_case (ignored e s) ih = rw (e, receive_inputs) (ih client)
      by_case (refused e full) ih = rw (e, receive_inputs)
      by_case (buffered client' n good at e ins above room same i) ih =
          rw (e, receive_inputs) (ih client' ∙ i)

  -- After a window has been received, all its inputs are settled.
  receive_inputs-settles :
      (client : LockstepClientData W) (cs : List (LockstepInput W.Input))
      → All (Settled (receive_inputs W client cs)) cs
  unfolding receive_inputs
  receive_inputs-settles client [] = tt
  receive_inputs-settles client (c ∷ cs) =
      by_case (received client c) (λ client'. receive_inputs-settles client' cs)
    where
      by_case :
          Received client c
          → ((client' : LockstepClientData W) → All (Settled (receive_inputs W client' cs)) cs)
          → All (Settled (receive_inputs W client (c ∷ cs))) (c ∷ cs)
      by_case (ignored e s) ih =
          subst (λ d. All (Settled d) (c ∷ cs)) (sym (receive_inputs_step client client c cs e))
            (receive_inputs-keeps client cs c s, ih client)
      by_case (refused e full) ih =
          subst (λ d. All (Settled d) (c ∷ cs)) (sym (receive_inputs_stop client c cs e))
            (All-full client (c ∷ cs) full)
      by_case (buffered client' n good at e ins above room same i) ih =
          subst (λ d. All (Settled d) (c ∷ cs)) (sym (receive_inputs_step client client' c cs e))
            (
              receive_inputs-keeps client' cs c
                  (inr (inr (inr (ground (arith, (ins 0).held c.input_id))))),
              ih client',
            )

  -- On valid client data, a window that arrives twice, as unreliable transport may have it,
  -- changes nothing the second time.
  pub receive_twice :
      (client : LockstepClientData W) (w : LockstepInputWindow W.Input)
      → IsValid client
      → receive W (receive W client w) w ≡ receive W client w
  unfolding receive
  receive_twice client w v = elim (Bool-cases client.initialized) [
    | inl e ↦
        let cs = into_input_iter w in
        let d = receive_inputs W client cs in
        let once : receive W client w ≡ d = if_true d client e in
        ap (λ x. receive W x w) once
        ∙ if_true (receive_inputs W d cs) d (receive_inputs-initialized client cs ∙ e)
        ∙ receive_inputs-Settled d cs (receive_inputs-IsValid client cs v)
            (receive_inputs-settles client cs)
        ∙ sym once
    | inr e ↦
        let once : receive W client w ≡ client =
          if_false (receive_inputs W client (into_input_iter w)) client e in
        ap (λ x. receive W x w) once
  ]
