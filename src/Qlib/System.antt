-- ===== src/Qlib/System.antt =====
-- qlib/qlib.go, NewLink: all links of a server, what they share, and the steps that they take.
pub mod Calls
pub mod Owned
pub mod Ended
pub mod Exclusive
mod Tests
use mnm.Prelude.{ℕ, ◌≡◌, Bool, Option, none, some, [], Text, lookup, insert, ◌==◌, if◌then◌else◌}
use mnm.Qlib.Header.{Header}
use mnm.Qlib.Quit.{Quit}
use mnm.Qlib.Stream.{Stream}
use mnm.Qlib.Store.{Store}
use mnm.Qlib.Server.{Queue, Server, Link, Env, new_link}
use mnm.Qlib.Handle.Dispatch.{handle_msg}
use mnm.Qlib.Link.{end_link}

-- The links by the number of their connection, and what they share.
pub record System : Type 0 where
  pub links : ℕ → Option Link
  pub server : Server

abbrev pub put : ℕ → Option Link → (ℕ → Option Link) → ℕ → Option Link
put i v links j = if j == i then v else links j

-- The link that is there after a call that it makes, or none, and the server.
abbrev pub after : System → ℕ → Option Link → Server → System
after s i v t = record { links = put i v s.links; server = t }

abbrev pub handling : Env → System → ℕ → Link → ℕ → Header → Text → System
handling env s i l space h bytes =
    let t = (handle_msg env space h bytes (record { link = l; server = s.server })).1 in
    after s i (some t.link) t.server

abbrev pub ending : Env → System → ℕ → Link → Quit → System
ending env s i l q =
    after s i none (end_link env q (record { link = l; server = s.server })).1.server

-- The states that the system reaches, where a message is handled, or a link ended, before another
-- link's is: from a start without links and queues, by connections, what clients send, messages of
-- links, ends of links, and what the runner of a queue does to the store and to all but the mark of
-- its queue.
pub data Reached (env : Env) : System → Type 0 where
  boots :
      (t : Server) → Reached env (record { links = λ i. none; server = record t { nodes = [] } })
  connects :
      (s : System) (i : ℕ) (r : Stream)
      → s.links i ≡ none
      → Reached env s
      → Reached env (after s i (some (new_link r)) s.server)
  receives :
      (s : System) (i : ℕ) (l : Link) (r : Stream)
      → s.links i ≡ some l
      → Reached env s
      → Reached env (after s i (some (record l { stream = r })) s.server)
  handles :
      (s : System) (i : ℕ) (l : Link) (space : ℕ) (h : Header) (bytes : Text)
      → s.links i ≡ some l
      → Reached env s
      → Reached env (handling env s i l space h bytes)
  ends :
      (s : System) (i : ℕ) (l : Link) (q : Quit)
      → s.links i ≡ some l
      → Reached env s
      → Reached env (ending env s i l q)
  runs :
      (s : System) (n : Text) (q q' : Queue) (st : Store)
      → lookup n s.server.nodes ≡ some (some q)
      → q'.has_conn ≡ q.has_conn
      → Reached env s
      → Reached env (record s {
        server = record s.server { nodes = insert n (some q') s.server.nodes; store = st };
      })
