-- ===== src/MotionServer/Notify/Faked.antt =====
-- The notification of the fake camera (C/source/production/fakecapture.c) and `motion_task`, which
-- reads it.
use edaf55_project.Base.{
  ℕ, [], ◌∷◌, ◌++◌, codes, length, length-append, some, true, ℤ, pos, ◌≡◌, refl, replicate, arith,
}
use edaf55_project.Text.{format_long}
use edaf55_project.Text.Decimal.{IsLong}
use edaf55_project.Text.Print.{
  AllNonzero-append, format_long-AllNonzero, length-format_long-le, snprintf_fits,
}
use edaf55_project.Socket.{Socket, IsLawful}
use edaf55_project.FakeCapture.{notify_message, fake_motion_notify}
use edaf55_project.MotionServer.{GlobalState}
use edaf55_project.MotionServer.Respond.Serving.{IsSendable, write_string_whole}
use edaf55_project.MotionServer.Notify.{request, waits, received, motion_task}
use edaf55_project.MotionServer.Notify.Latest.{Note, text_of, motion_task-latest}

-- The notification as `motion_task` sees it.
abbrev pub note_of : ℕ → ℤ → ℤ → Note
note_of fd stamp now = record { fd = fd; stamp = stamp; stop = b'\n'; rest = []; now = now }

notify_message-text_of :
    (fd : ℕ) (stamp now : ℤ) → notify_message stamp ≡ text_of (note_of fd stamp now)
unfolding notify_message
notify_message-text_of fd stamp now =
    snprintf_fits 100 (text_of (note_of fd stamp now))
      (omega (arith, length-append (format_long stamp) (codes "\n"), length-format_long-le stamp))

notify_message-IsSendable : (stamp : ℤ) → IsSendable (notify_message stamp)
notify_message-IsSendable stamp = rw (notify_message-text_of 0 stamp (pos 0)) (record {
  nonzero = AllNonzero-append (codes "GET /motion?Message=") _ (omega arith) (
      AllNonzero-append (format_long stamp) (codes "\n") (format_long-AllNonzero stamp)
        (omega arith));
  some_bytes = omega arith;
  few = omega (arith, length-append (format_long stamp) (codes "\n"), length-format_long-le stamp);
})

-- A notification of the fake camera, sent at the time `stamp` over a lawful socket that takes it
-- in one go and read by `motion_task` from the descriptor `fd` at the time `now`, sets the two
-- times to these and `motioncfd` to `fd`, if `stamp` fits a `long`.
pub fake_motion_notify-motion_task :
    (S : Socket) (s t : S.State) (fd : ℕ) (stamp now : ℤ) (state : GlobalState)
    → IsLawful S
    → IsLong stamp
    → S.send s (notify_message stamp) ≡ (pos (length (notify_message stamp)), t)
    → (fake_motion_notify S true s stamp ≡ some t)
      × (S.wire t ≡ S.wire s ++ notify_message stamp)
      × (motion_task (request fd (notify_message stamp) now (pos 0) ∷ []) state
          ≡ some (
              waits (received (replicate 1024 0) (notify_message stamp)) (pos 0) (record state {
                mfd = state.motionfd;
                motioncfd = pos fd;
                t_remote = stamp;
                t_local = now;
              })))
unfolding fake_motion_notify
fake_motion_notify-motion_task S s t fd stamp now state L fits whole =
    let (written, wired) =
      write_string_whole S L (notify_message stamp) s t (notify_message-IsSendable stamp) whole in
    (
      rw written refl,
      wired,
      rw (notify_message-text_of fd stamp now) (
          motion_task-latest (note_of fd stamp now ∷ []) state
            (record { fits = fits; ends = refl }, record {})),
    )
