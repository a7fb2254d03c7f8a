-- ===== src/Provider/Exec.antt =====
-- RunInContainer of pkg/provider/aci.go and ExecuteContainerCommand of pkg/client/client_apis.go. The
-- goroutine that copies the input and the loop that copies the output take turns in an order that is
-- given; what the caller's streams and the websocket answer is part of the session.
pub mod Copied
pub mod Sent
pub mod Opened
mod Examples
use azure_aci.Prelude.{
  ℕ, String, Bool, true, false, Option, none, some, List, [], ◌∷◌, ◌++◌, if◌then◌else◌, join, take,
  Error, deref, eqb,
}
use azure_aci.Prelude.Io.{Io, pure, raise, lift, attempt, ◌>>=◌, ◌>>◌}
use azure_aci.Provider.{AciProvider}

abbrev pub Bytes : Type 0
Bytes = List ℕ

-- One `in.Read` with what it has put into the buffer, whether it returned an error, and whether the
-- WriteMessage that follows succeeds.
pub record Input : Type 0 where
  pub bytes : Bytes
  pub failed : Bool
  pub accepted : Bool

-- A message that NextReader gives, and after how many bytes io.Copy fails, if it does.
pub record Frame : Type 0 where
  pub bytes : Bytes
  pub cut : Option ℕ

-- A terminal session: whether the context is done, what is to be read from the input and whether the
-- goroutine that does so still runs, the binary messages that were sent, the messages to come and
-- whether the loop that copies them still runs, and what was written to the output. After the last
-- input and after the last message the reads fail.
pub record Session : Type 0 where
  pub is_done : Bool
  pub inputs : List Input
  pub reading : Bool
  pub sent : List Bytes
  pub frames : List Frame
  pub copying : Bool
  pub written : Bytes

abbrev pub send_input : Input → Bytes → Session → Session
send_input answer [] s = s
send_input answer (b ∷ bytes) s =
    if answer.accepted
    then record s { sent = s.sent ++ (b ∷ bytes) ∷ [] }
    else record s { reading = false }

-- One iteration of the goroutine.
unfoldable pub read_input : List Input → Session → Session
read_input [] s = record s { reading = false }
read_input (answer ∷ rest) s =
    if answer.failed
    then record s { inputs = rest; reading = false }
    else send_input answer answer.bytes (record s { inputs = rest })

unfoldable pub input_turn : Session → Session
unfolding read_input
input_turn s = if s.is_done then record s { reading = false } else read_input s.inputs s

-- One iteration of the loop that copies the output. The `break` for a context that is done leaves the
-- `select` only, so nothing is asked of the context.
unfoldable pub copy_frame : List Frame → Session → Session
copy_frame [] s = record s { copying = false }
copy_frame (frame ∷ rest) s = elim frame.cut [
  | none ↦ record s { frames = rest; written = s.written ++ frame.bytes }
  | some n ↦ record s { frames = rest; written = s.written ++ take n frame.bytes; copying = false }
]

-- What happens next: the context ends, or a loop that still runs makes one iteration.
pub data Turn : Type 0 where
  cancel : Turn
  input : Turn
  output : Turn

unfoldable pub take_turn : Turn → Session → Session
unfolding input_turn copy_frame
take_turn cancel s = record s { is_done = true }
take_turn input s = if s.reading then input_turn s else s
take_turn output s = if s.copying then copy_frame s.frames s else s

unfoldable pub take_turns : List Turn → Session → Session
unfolding take_turn
take_turns [] s = s
take_turns (turn ∷ turns) s = take_turns turns (take_turn turn s)

pub record ExecRequest : Type 0 where
  pub command : String
  pub cols : ℕ
  pub rows : ℕ

pub record ExecResponse : Type 0 where
  pub web_socket_uri : Option String
  pub password : Option String

-- ctx.Err() of a context that is done, which says whether it was canceled or its deadline has passed;
-- ContainersClient.ExecuteCommand, the dialling of a websocket, and its WriteMessage for a text.
pub record Terminal (W : Type 0) : Type 0 where
  pub context_error : Error
  pub execute_command : String → String → String → ExecRequest → Io W ExecResponse
  pub dial : String → Io W (Unit {0})
  pub write_text : String → Io W (Unit {0})

module _ {W : Type 0} (t : Terminal W) where
  unfoldable pub execute_container_command :
      String → String → String → ExecRequest → Io W (Option ExecResponse)
  execute_container_command resource_group cg_name container_name container_req = do
    result ← t.execute_command resource_group cg_name container_name container_req
    pure (some result)

  abbrev pub exec_request : List String → ExecRequest
  exec_request cmd = record { command = join " " cmd; cols = 60; rows = 120 }

  -- The connection of a response: its password is sent before the terminal is active.
  unfoldable pub connect : ExecResponse → Io W (Unit {0})
  connect response = do
    ws_uri ← lift (deref response.web_socket_uri)
    password ← lift (deref response.password)
    t.dial ws_uri
    t.write_text password

  module _ (p : AciProvider W) where
    unfoldable pub open_terminal : String → String → String → List String → Io W (Unit {0})
    unfolding execute_container_command connect
    open_terminal namespace name container cmd = do
      info ← p.az_clients.get_container_group_info p.resource_group namespace name p.node_name
      cg ← lift (deref info)
      cg_name ← lift (deref cg.name)
      answer ← execute_container_command p.resource_group cg_name container (exec_request cmd)
      response ← lift (deref answer)
      connect response

    -- `return ctx.Err()`, once the loop that copies the output has ended; no value until then.
    abbrev pub end_session : Session → Io W (Option (Unit {0}))
    end_session s =
        if s.copying then pure none else if s.is_done then raise t.context_error else pure (some tt)

    -- RunInContainer, with the session as it starts and the turns that are taken in it.
    unfoldable pub run_in_container :
        String → String → String → List String → Session → List Turn → Io W (Option (Unit {0}))
    unfolding open_terminal take_turns
    run_in_container namespace name container cmd start turns = do
      open_terminal namespace name container cmd
      end_session (take_turns turns start)
