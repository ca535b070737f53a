-- ===== src/Network/Server/Steps.antt =====
-- The handlers of src/TCPServer.cpp that add or remove a connection, and the two tables.
use lumen_engine.Prelude.{
  ℕ, ◌+◌, ◌≤◌, ◌<◌, ◌≡◌, ◌⊎◌, inl, inr, refl, sym, ap, ◌∙◌, subst, Bool, true, false, Bool-cases,
  List, [], ◌∷◌, ◌++◌, if◌then◌else◌, arith, length, get_or, length-append, minus_one, ℤ, ◌==ℤ◌,
  ==ℤ_iff,
}
use lumen_engine.Queue.Interface.{ITaskQueue}
use lumen_engine.Core.Types.{InferenceTask}
use lumen_engine.Network.Session.{ClientSession, new_session}
use lumen_engine.Network.Kernel.{poll_in, Pollfd, Kernel, no_pollfd, open_fds, remove_pollfd}
use lumen_engine.Network.Sessions.{put_session}
use lumen_engine.Network.Server.{TcpServer, handle_new_connection, close_connection}
use lumen_engine.Network.Server.Count.{
  bit, count, has_session, count-append, count-remove_pollfd, head-remove_pollfd,
  length-remove_pollfd, has-put_session, has-erase_session,
}
use lumen_engine.Network.Server.Tables.{
  Tables, listener, some_pollfd, entry-has_session, other_entry, same_keys, off_of_bit, turned,
}

-- `accept` fails, or answers with a descriptor that is not open.
abbrev pub FreshAccept : Kernel → Type 0
FreshAccept kernel =
    (n : ℕ) (l : List ℤ) → (kernel.accept n l ≡ minus_one) ⊎ (count (kernel.accept n l) l ≡ 0)

-- While the entries are handled, `poll` has not reported the listening socket as writable.
abbrev pub Quiet : {t : ITaskQueue InferenceTask} → TcpServer t → Type 0
Quiet sv = (listener sv.pollfds).revents.writable ≡ false

-- Handling an entry removes at most one.
pub record Handled {t : ITaskQueue InferenceTask} (sv : TcpServer t) (removed : Bool)
    (sv' : TcpServer t) : Type 0 where
  pub tables : Tables sv'
  pub quiet : Quiet sv'
  pub room : length sv.pollfds ≤ length sv'.pollfds + bit removed

bit_put : (b h : Bool) → (b ≡ true → bit h ≡ 0) → bit (if b then true else h) ≡ bit h + bit b
bit_put true h e = omega (arith, e refl)
bit_put false h e = omega arith

bit_erase : (b h : Bool) → (b ≡ true → h ≡ true) → bit (if b then false else h) + bit b ≡ bit h
bit_erase true h e = sym (ap bit (e refl))
bit_erase false h e = omega arith

listener-append :
    (l : List Pollfd) (p : Pollfd) → 0 < length l → listener (l ++ (p ∷ [])) ≡ listener l
listener-append [] p h = elim h [ ]
listener-append (q ∷ l) p h = refl

module _ {t : ITaskQueue InferenceTask} (kernel : Kernel) where
  refused :
      (sv : TcpServer t)
      → Tables sv
      → Quiet sv
      → Handled sv false (record sv { calls = sv.calls + 1 })
  refused sv h quiet = record {
    tables = same_keys sv (record sv { calls = sv.calls + 1 }) h refl refl (λ fd. refl);
    quiet = quiet;
    room = omega arith;
  }

  accepted :
      (sv : TcpServer t) (fd : ℤ) (p : Pollfd) (v : ClientSession)
      → Tables sv
      → Quiet sv
      → p.fd ≡ fd
      → count fd (open_fds sv.pollfds) ≡ 0
      → Handled sv false (record sv {
        calls = sv.calls + 1;
        pollfds = sv.pollfds ++ (p ∷ []);
        sessions = put_session fd v sv.sessions;
      })
  accepted sv fd p v h quiet named fresh = record {
    tables = record {
      first = ap (λ (q : Pollfd). q.fd) head ∙ h.first;
      listens = ap (λ (q : Pollfd). q.events) head ∙ h.listens;
      balance = λ key. omega (
        arith,
        h.balance key,
        count-append key sv.pollfds p,
        ap (λ z. bit (z ==ℤ key)) named,
        ap bit (has-put_session fd key v sv.sessions),
        bit_put (fd ==ℤ key) (has_session key sv.sessions) (λ same. omega (
          arith,
          h.balance fd,
          fresh,
          ap (λ z. bit (has_session z sv.sessions)) ((==ℤ_iff fd key).0 same),
        )),
      );
      apart =
          has-put_session fd sv.sockfd v sv.sessions
          ∙ ap (λ b. if b then true else has_session sv.sockfd sv.sessions)
              (turned sv.sockfd fd
                (off_of_bit (sv.sockfd ==ℤ fd) (omega (arith, h.balance fd, fresh))))
          ∙ h.apart;
    };
    quiet = ap (λ (q : Pollfd). q.revents.writable) head ∙ quiet;
    room = omega (arith, length-append sv.pollfds (p ∷ []));
  }
    where
      head : listener (sv.pollfds ++ (p ∷ [])) ≡ listener sv.pollfds
      head = listener-append sv.pollfds p (some_pollfd sv h)

  pub handle_new_connection-Handled :
      (sv : TcpServer t)
      → FreshAccept kernel
      → Tables sv
      → Quiet sv
      → Handled sv false (handle_new_connection kernel sv)
  unfolding handle_new_connection
  handle_new_connection-Handled sv fresh h quiet = elim (Bool-cases (new_fd ==ℤ minus_one)) [
    | inl e ↦ subst (λ b. Handled sv false (result b)) (sym e) (refused sv h quiet)
    | inr e ↦
        subst (λ b. Handled sv false (result b)) (sym e)
          (accepted sv new_fd
            (record { fd = new_fd; events = poll_in; revents = kernel.garbage_revents sv.calls })
            (new_session (kernel.garbage_header sv.calls)) h quiet refl
            (not_open (fresh sv.calls (open_fds sv.pollfds)) e))
  ]
    where
      new_fd : ℤ
      new_fd = kernel.accept sv.calls (open_fds sv.pollfds)

      result : Bool → TcpServer t
      result b = if b then record sv { calls = sv.calls + 1 } else (record sv {
        calls = sv.calls + 1;
        pollfds =
            sv.pollfds
            ++ (record { fd = new_fd; events = poll_in; revents = kernel.garbage_revents sv.calls }
                ∷ []);
        sessions = put_session new_fd (new_session (kernel.garbage_header sv.calls)) sv.sessions;
      })

      not_open :
          (new_fd ≡ minus_one) ⊎ (count new_fd (open_fds sv.pollfds) ≡ 0)
          → (new_fd ==ℤ minus_one) ≡ false
          → count new_fd (open_fds sv.pollfds) ≡ 0
      not_open (inl e) off =
          absurd (omega (arith, ap bit (sym ((==ℤ_iff new_fd minus_one).1 e) ∙ off)))
      not_open (inr e) off = e

  pub close_connection-Handled :
      (sv : TcpServer t) (i : ℕ)
      → Tables sv
      → Quiet sv
      → 0 < i
      → i < length sv.pollfds
      → Handled sv true (close_connection kernel (get_or sv.pollfds i no_pollfd).fd i sv)
  unfolding close_connection
  close_connection-Handled sv i h quiet some_i inside = record {
    tables = record {
      first = ap (λ (q : Pollfd). q.fd) head ∙ h.first;
      listens = ap (λ (q : Pollfd). q.events) head ∙ h.listens;
      balance = λ key. omega (
        arith,
        h.balance key,
        count-remove_pollfd key sv.pollfds i inside,
        ap bit (has-erase_session fd key sv.sessions),
        bit_erase (fd ==ℤ key) (has_session key sv.sessions) (λ same.
            ap (λ z. has_session z sv.sessions) (sym ((==ℤ_iff fd key).0 same))
            ∙ entry-has_session sv i h inside other),
      );
      apart =
          has-erase_session fd sv.sockfd sv.sessions
          ∙ ap (λ b. if b then false else has_session sv.sockfd sv.sessions) other
          ∙ h.apart;
    };
    quiet = ap (λ (q : Pollfd). q.revents.writable) head ∙ quiet;
    room = omega (arith, length-remove_pollfd sv.pollfds i);
  }
    where
      fd : ℤ
      fd = (get_or sv.pollfds i no_pollfd).fd

      head : listener (remove_pollfd sv.pollfds i) ≡ listener sv.pollfds
      head = head-remove_pollfd sv.pollfds i some_i inside

      other : (fd ==ℤ sv.sockfd) ≡ false
      other = other_entry sv i h some_i inside
