-- ===== src/Provider/Exec/Opened.antt =====
-- When RunInContainer starts a session, and what it returns from it.
use azure_aci.Prelude.{
  ℕ, ◌<◌, ◌≡◌, refl, sym, ap, ◌∙◌, String, Bool, true, false, ◌||◌, Option, none, some, List, [],
  ◌∷◌, length, if◌then◌else◌, ok, err, Error, deref, deref-eq-ok, ok-injective, inl, inr, join,
  subst, if-both, Option-cases,
}
use azure_aci.Prelude.Io.{pure, raise, >>=-ok, >>=-eq-ok, lift->>=-eq-ok}
use azure_aci.Azure.{ContainerGroup}
use azure_aci.Provider.{AciProvider}
use azure_aci.Provider.Exec.{
  Frame, Session, send_input, read_input, input_turn, copy_frame, Turn, cancel, input, output,
  take_turn, take_turns, ExecRequest, ExecResponse, Terminal, execute_container_command, connect,
  open_terminal, run_in_container, Input,
}
use azure_aci.Provider.Exec.Copied.{outputs, take_turns-delivered}

-- Whether the context ends in one of the turns.
abbrev pub is_cancelled : List Turn → Bool
is_cancelled [] = false
is_cancelled (cancel ∷ turns) = true
is_cancelled (input ∷ turns) = is_cancelled turns
is_cancelled (output ∷ turns) = is_cancelled turns

abbrev is_done_of : Session → Bool
is_done_of s = s.is_done

or-true : (b : Bool) → (b || true) ≡ true
or-true true = refl
or-true false = refl

send_input-is_done :
    (answer : Input) (bytes : List ℕ) (s : Session)
    → (send_input answer bytes s).is_done ≡ s.is_done
send_input-is_done answer [] s = refl
send_input-is_done answer (b ∷ bytes) s = if-both is_done_of answer.accepted refl refl

read_input-is_done :
    (answers : List Input) (s : Session) → (read_input answers s).is_done ≡ s.is_done
unfolding read_input
read_input-is_done [] s = refl
read_input-is_done (answer ∷ rest) s =
    if-both is_done_of answer.failed refl
      (send_input-is_done answer answer.bytes (record s { inputs = rest }))

input-is_done : (s : Session) → (take_turn input s).is_done ≡ s.is_done
unfolding take_turn input_turn
input-is_done s =
    if-both is_done_of s.reading (if-both is_done_of s.is_done refl (read_input-is_done s.inputs s))
      refl

copy_frame-is_done : (frames : List Frame) (s : Session) → (copy_frame frames s).is_done ≡ s.is_done
unfolding copy_frame
copy_frame-is_done [] s = refl
copy_frame-is_done (frame ∷ rest) s = elim (Option-cases frame.cut) [
  | inl whole ↦ rw whole refl
  | inr (n, cut) ↦ rw cut refl
]

take_turns-is_done :
    (turns : List Turn) (s : Session)
    → (take_turns turns s).is_done ≡ (is_cancelled turns || s.is_done)
unfolding take_turns take_turn
take_turns-is_done [] s = refl
take_turns-is_done (cancel ∷ turns) s =
    take_turns-is_done turns (take_turn cancel s) ∙ or-true (is_cancelled turns)
take_turns-is_done (input ∷ turns) s =
    take_turns-is_done turns (take_turn input s)
    ∙ ap (λ b. is_cancelled turns || b) (input-is_done s)
take_turns-is_done (output ∷ turns) s =
    take_turns-is_done turns (take_turn output s)
    ∙ ap (λ b. is_cancelled turns || b)
        (if-both is_done_of s.copying (copy_frame-is_done s.frames s) refl)

module _ {W : Type 0} (e : Error) where
  ended-eq :
      (copying is_done : Bool) (w w' : W)
      → (if copying then pure none else if is_done then raise e else pure (some tt)) w
        ≡ (ok (some tt), w')
      → (copying ≡ false) × (is_done ≡ false) × (w ≡ w')
  ended-eq true is_done w w' h = cc
  ended-eq false true w w' h = cc
  ended-eq false false w w' h = (refl, refl, ap (λ x. x.1) h)

  ended-at :
      (copying is_done : Bool) (w : W)
      → copying ≡ false
      → (if copying then pure none else if is_done then raise e else pure (some tt)) w
        ≡ (if is_done then (err e, w) else (ok (some tt), w))
  ended-at true is_done w h = cc
  ended-at false true w h = refl
  ended-at false false w h = refl

module _ {W : Type 0} (t : Terminal W) where
  execute_container_command-eq-ok :
      (rg cg_name container : String) (request : ExecRequest) (w w' : W)
      → (response expected : ExecResponse) → (answer : Option ExecResponse)
      → deref answer ≡ ok response
      → response ≡ expected
      → execute_container_command t rg cg_name container request w ≡ (ok answer, w')
      → t.execute_command rg cg_name container request w ≡ (ok expected, w')
  unfolding execute_container_command
  execute_container_command-eq-ok rg cg_name container request w w' response expected answer is_some
        at h =
      let (result, w1, executed, same) =
        >>=-eq-ok (t.execute_command rg cg_name container request) _ w h in
      executed
      ∙ ap (λ v. (ok v, w1))
          (ok-injective result response
            (ap deref (ok-injective (some result) answer (ap (λ x. x.0) same)) ∙ is_some))
      ∙ ap (λ v. (ok response, v)) (ap (λ x. x.1) same)
      ∙ ap (λ v. (ok v, w')) at

  connect-eq-ok :
      (response : ExecResponse) (w w' : W)
      → connect t response w ≡ (ok tt, w')
      → (uri : String) × (password : String) × (w1 : W) × (response
          ≡ record { web_socket_uri = some uri; password = some password })
        × (t.dial uri w ≡ (ok tt, w1))
        × (t.write_text password w1 ≡ (ok tt, w'))
  unfolding connect
  connect-eq-ok response w w' h =
      let (uri, at, h1) = lift->>=-eq-ok (deref response.web_socket_uri) _ w h in
      let (password, with, h2) = lift->>=-eq-ok (deref response.password) _ w h1 in
      let (_, w1, dialled, h3) = >>=-eq-ok (t.dial uri) _ w h2 in
      (
        uri,
        password,
        w1,
        ap (λ v. record response { web_socket_uri = v }) (deref-eq-ok response.web_socket_uri at)
            ∙ ap (λ v. record { web_socket_uri = some uri; password = v })
                (deref-eq-ok response.password with),
        dialled,
        h3,
      )

module _ {W : Type 0} (t : Terminal W) (p : AciProvider W) (namespace name container : String)
    (cmd : List String) where
  -- What a terminal that was opened went through: the group and its name, the command that was executed
  -- in the container, and the connection to the address that was answered, with its password.
  pub record IsOpened (w w' : W) : Type 0 where
    pub cg : ContainerGroup
    pub cg_name : String
    pub ws_uri : String
    pub password : String
    pub found_world : W
    pub executed_world : W
    pub dialled_world : W
    pub found :
        p.az_clients.get_container_group_info p.resource_group namespace name p.node_name w
        ≡ (ok (some cg), found_world)
    pub named : cg.name ≡ some cg_name
    pub executed :
        t.execute_command p.resource_group cg_name container
          (record { command = join " " cmd; cols = 60; rows = 120 })
          found_world
        ≡ (ok (record { web_socket_uri = some ws_uri; password = some password }), executed_world)
    pub dialled : t.dial ws_uri executed_world ≡ (ok tt, dialled_world)
    pub admitted : t.write_text password dialled_world ≡ (ok tt, w')

  open_terminal-IsOpened :
      (w w' : W) → open_terminal t p namespace name container cmd w ≡ (ok tt, w') → IsOpened w w'
  unfolding open_terminal execute_container_command connect
  open_terminal-IsOpened w w' h =
      let (info, w1, found, h1) =
        >>=-eq-ok
          (p.az_clients.get_container_group_info p.resource_group namespace name p.node_name) _ w
          h in
      let (cg, is_some, h2) = lift->>=-eq-ok (deref info) _ w1 h1 in
      let (cg_name, named, h3) = lift->>=-eq-ok (deref cg.name) _ w1 h2 in
      let (answer, w2, executed, h4) =
        >>=-eq-ok (execute_container_command t p.resource_group cg_name container _) _ w1 h3 in
      let (response, answered, h5) = lift->>=-eq-ok (deref answer) _ w2 h4 in
      let (uri, password, w3, at, dialled, admitted) = connect-eq-ok t response w2 w' h5 in
      record {
        cg = cg;
        cg_name = cg_name;
        ws_uri = uri;
        password = password;
        found_world = w1;
        executed_world = w2;
        dialled_world = w3;
        found = found ∙ ap (λ v. (ok v, w1)) (deref-eq-ok info is_some);
        named = deref-eq-ok cg.name named;
        executed =
            execute_container_command-eq-ok t p.resource_group cg_name container _ w1 w2 response _
              answer answered at executed;
        dialled = dialled;
        admitted = admitted;
      }

  -- A call that ends without an error has opened the terminal and left it with the context not done.
  run_in_container-IsOpened :
      (start : Session) (turns : List Turn) (w w' : W)
      → run_in_container t p namespace name container cmd start turns w ≡ (ok (some tt), w')
      → IsOpened w w'
        × ((is_cancelled turns || start.is_done) ≡ false)
        × ((take_turns turns start).copying ≡ false)
  unfolding run_in_container
  run_in_container-IsOpened start turns w w' h =
      let (_, w1, opened, ended) =
        >>=-eq-ok (open_terminal t p namespace name container cmd) _ w h in
      let (stopped, live, same) =
        ended-eq t.context_error (take_turns turns start).copying (take_turns turns start).is_done
          w1 w' ended in
      (
        subst (IsOpened w) same (open_terminal-IsOpened w w1 opened),
        sym (take_turns-is_done turns start) ∙ live,
        stopped,
      )

  -- Once the terminal is open, RunInContainer returns when the loop for the output has had one turn more
  -- than there are messages, in whichever order the turns are taken: without an error, or with the
  -- context's if it has ended at any time.
  pub run_in_container-ends :
      (start : Session) (turns : List Turn) (w w' : W)
      → open_terminal t p namespace name container cmd w ≡ (ok tt, w')
      → start.copying ≡ true
      → length start.frames < outputs turns
      → run_in_container t p namespace name container cmd start turns w ≡ (
          if is_cancelled turns || start.is_done
          then (err t.context_error, w')
          else (ok (some tt), w'))
  unfolding run_in_container
  run_in_container-ends start turns w w' opened on enough =
      >>=-ok (open_terminal t p namespace name container cmd) _ opened
      ∙ ended-at t.context_error _ (take_turns turns start).is_done w'
          (take_turns-delivered turns start on enough).1
      ∙ ap (λ b. if b then (err t.context_error, w') else (ok (some tt), w'))
          (take_turns-is_done turns start)
