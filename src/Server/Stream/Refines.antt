-- ===== src/Server/Stream/Refines.antt =====
-- C/source/production/server.c: the threads with their frames against the relay.
use mathlib.Core.Path.{subst}
use edaf55_project.Base.{
  ℕ, ◌≡◌, refl, ◌∙◌, ap, sym, List, [], ◌∷◌, ◌++◌, append_assoc, append-nil, none, some, ◌⊎◌, inl,
  inr, arith,
}
use edaf55_project.Socket.{Socket}
use edaf55_project.FakeCapture.{File, MediaFrame, capture_get_frame}
use edaf55_project.Camera.{Camera}
use edaf55_project.CameraMonitor.{CameraMonitor}
use edaf55_project.Server.Frames.{try_get_frame, try_send_frame}
use edaf55_project.Server.Frames.Delivery.{packet_of, IsBuffer}
use edaf55_project.Server.Tasks.{
  current, System, Step, by_taker, by_sender, handle, begin, Reach, here, later, working, flipping,
  Move, work, taker, sender, left_over,
}
use edaf55_project.Server.Tasks.Safety.{taking_all_sent, sending_last_taken}
use edaf55_project.Server.Stream.{
  Live, LiveStep, between, takes, sends, LiveReach, begun, then_step, begin_live, took, sent,
}
use edaf55_project.Server.Stream.Relay.{
  Relay, RelayStep, accept, deliver, RelayReach, at_start, and_then, empty_relay, held_list,
  accepted, packets,
}
use edaf55_project.Server.Stream.Shows.{
  ShowsAll, ShowsAll-append, ShowsAll-held, ShowsAll-none, packets-append,
}
use edaf55_project.Server.Stream.Effects.{
  TakesAll, Step-SamePacket, try_get_frame-Shows, try_send_frame-sent,
}

-- Both are steps of the threads.
takes-Step :
    (s : System) (m' : CameraMonitor)
    → s.taker_pc ≡ working
    → record (s.sh.mon) { pic_packet = m'.pic_packet; packet_sz = m'.packet_sz } ≡ m'
    → Step s (took m' s)
takes-Step s m' at same =
    subst
      (λ n. Step s (record s {
        sh = record (s.sh) { mon = n; pics = s.sh.pics ++ (current m' ∷ []) };
        taker_pc = flipping;
      }))
      same
      (by_taker (
        subst (λ p. Move taker s.sh p (work taker (current m') s.sh) flipping) (sym at)
          (handle (current m'))))

sends-Step : (s : System) → s.sender_pc ≡ working → Step s (sent s)
sends-Step s at = by_sender (
    subst (λ p. Move sender s.sh p (work sender (current s.sh.mon) s.sh) flipping) (sym at)
      (handle (current s.sh.mon)))

module _ (disk : List ℕ → File) (S : Socket) (T : TakesAll S) (m : CameraMonitor) (start : List ℕ)
    (idle : m.pic_take_send ≡ 0) where
  -- The server's state is one of the relay's: what it has sent are the packets of the delivered
  -- frames, and what it has captured are the accepted ones.
  pub record Matches (c : Live S) (r : Relay) : Type 0 where
    pub reached : Reach (begin m) c.sys
    pub buffer : IsBuffer c.sys.sh.mon.pic_packet
    pub wired : S.wire c.conn ≡ start ++ packets r.delivered
    pub out_shown : ShowsAll c.sys.sh.out r.delivered
    pub pics_shown : ShowsAll c.sys.sh.pics (accepted r)
    pub captured : c.shots ≡ accepted r

  between-Matches :
      (c : Live S) (r : Relay) (s : System)
      → Matches c r
      → Step c.sys s
      → s.sh.pics ≡ c.sys.sh.pics
      → s.sh.out ≡ c.sys.sh.out
      → Matches (record c { sys = s }) r
  between-Matches c r s v st p o = record {
    reached = later v.reached st;
    buffer = rw (Step-SamePacket st p) v.buffer;
    wired = v.wired;
    out_shown = rw o v.out_shown;
    pics_shown = rw p v.pics_shown;
    captured = v.captured;
  }

  takes-Matches :
      (c : Live S) (r : Relay) (sec nsec : ℕ) (local : List ℕ) (f : MediaFrame) (code : ℕ)
      (m' : CameraMonitor) (cam' : Camera)
      → Matches c r
      → IsBuffer local
      → c.sys.taker_pc ≡ working
      → (capture_get_frame disk sec nsec c.cam.stream).frame ≡ some f
      → try_get_frame disk sec nsec local c.cam c.sys.sh.mon ≡ some (code, m', cam')
      → (r.held ≡ none)
        × Matches
            (record c { sys = took m' c.sys; cam = cam'; shots = c.shots ++ (f ∷ []) })
            (record r { held = some f })
  takes-Matches c r sec nsec local f code m' cam' v hl at got runs =
      let (shown, is_saved, _) =
        try_get_frame-Shows disk sec nsec local f code c.cam cam' c.sys.sh.mon m' hl v.buffer got
          runs in
      let all_sent = taking_all_sent (omega arith) v.reached at in
      let free : r.held ≡ none =
        ShowsAll-none c.sys.sh.out r.delivered r.held v.out_shown (rw all_sent at v.pics_shown) in
      let none_held : accepted r ≡ r.delivered =
        ap (λ h. r.delivered ++ held_list h) free ∙ append-nil r.delivered in
      (
        free,
        record {
          reached = later v.reached (
              takes-Step c.sys m' at (
                ap
                  (λ n. record (c.sys.sh.mon) {
                    pic_packet = n.pic_packet;
                    packet_sz = n.packet_sz;
                  })
                  is_saved
                ∙ sym is_saved));
          buffer = shown.buffer;
          wired = v.wired;
          out_shown = v.out_shown;
          pics_shown =
              ShowsAll-append c.sys.sh.pics r.delivered (current m') f
                (subst (ShowsAll c.sys.sh.pics) none_held v.pics_shown) shown;
          captured = ap (λ fs. fs ++ (f ∷ [])) (v.captured ∙ none_held);
        },
      )

  sends-Matches :
      (c : Live S) (r : Relay) (local : List ℕ) (code : ℕ) (conn : S.State)
      → Matches c r
      → IsBuffer local
      → c.sys.sender_pc ≡ working
      → try_send_frame S c.conn local c.sys.sh.mon ≡ some (code, conn)
      → (f : MediaFrame) × (r.held ≡ some f)
        × Matches
            (record c { sys = sent c.sys; conn = conn })
            (record { held = none; delivered = r.delivered ++ (f ∷ []) })
  sends-Matches c r local code conn v hl at runs =
      let last = sending_last_taken (omega arith) v.reached at in
      let (f, held, shown) =
        ShowsAll-held c.sys.sh.out r.delivered (current c.sys.sh.mon) r.held v.out_shown
          (subst (λ ps. ShowsAll ps (accepted r)) last v.pics_shown) in
      let wire = try_send_frame-sent S T local f c.sys.sh.mon code c.conn conn hl shown runs in
      let all : accepted r
          ≡ accepted (record { held = none; delivered = r.delivered ++ (f ∷ []) }) =
        ap (λ h. r.delivered ++ held_list h) held ∙ sym (append-nil (r.delivered ++ (f ∷ []))) in
      (
        f,
        held,
        record {
          reached = later v.reached (sends-Step c.sys at);
          buffer = v.buffer;
          wired =
              wire
              ∙ ap (λ w. w ++ packet_of f) v.wired
              ∙ append_assoc start (packets r.delivered) (packet_of f)
              ∙ ap (λ w. start ++ w) (sym (packets-append r.delivered f));
          out_shown =
              ShowsAll-append c.sys.sh.out r.delivered (current c.sys.sh.mon) f v.out_shown shown;
          pics_shown = subst (ShowsAll c.sys.sh.pics) all v.pics_shown;
          captured = v.captured ∙ all;
        },
      )

  -- A step of the server is one of the relay's, or none.
  step-Matches :
      {c d : Live S} (r : Relay)
      → Matches c r
      → LiveStep disk S c d
      → (r' : Relay) × ((r' ≡ r) ⊎ RelayStep r r') × Matches d r'
  step-Matches {c} r v (between {s} st p o) = (r, inl refl, between-Matches c r s v st p o)
  step-Matches {c} r v (takes sec nsec local f code m' cam hl _ at got runs) =
      let (free, v') = takes-Matches c r sec nsec local f code m' cam v hl at got runs in
      (record r { held = some f }, inr (accept f free), v')
  step-Matches {c} r v (sends local code conn hl _ at runs) =
      let (f, held, v') = sends-Matches c r local code conn v hl at runs in
      (record { held = none; delivered = r.delivered ++ (f ∷ []) }, inr (deliver f held), v')

  run-Matches :
      {c d : Live S} (r : Relay)
      → Matches c r
      → LiveReach disk S c d
      → (r' : Relay) × RelayReach r r' × Matches d r'
  run-Matches r v begun = (r, at_start, v)
  run-Matches r v (then_step run st) =
      let (r', reach, v') = run-Matches r v run in
      let (t, move, w) = step-Matches r' v' st in
      (
        t,
        elim move [
          | inl same ↦ subst (RelayReach r) (sym same) reach
          | inr go_on ↦ and_then reach go_on
        ],
        w,
      )

-- The threads over a monitor with no picture to send, and the relay.
pub LiveReach-Matches :
    (disk : List ℕ → File) (S : Socket) (m : CameraMonitor) (cam : Camera) (conn : S.State)
    {c : Live S}
    → (T : TakesAll S) → (idle : m.pic_take_send ≡ 0) → IsBuffer m.pic_packet
    → LiveReach disk S (begin_live S m cam conn) c
    → (r : Relay) × RelayReach empty_relay r × Matches disk S T m (S.wire conn) idle c r
LiveReach-Matches disk S m cam conn T idle hm run =
    run-Matches disk S T m (S.wire conn) idle empty_relay fresh run
  where
    fresh : Matches disk S T m (S.wire conn) idle (begin_live S m cam conn) empty_relay
    fresh = record {
      reached = here;
      buffer = hm;
      wired = sym (append-nil (S.wire conn));
      out_shown = tt;
      pics_shown =
          let none_left : left_over m ≡ [] = ground arith in
          subst (λ ps. ShowsAll ps []) (sym none_left) tt;
      captured = refl;
    }

-- The server implements the relay: whatever its threads do, what it has sent to its client are the
-- packets of the frames that some run of the relay has delivered, and what it has captured are the
-- frames that this run has accepted. The socket takes all it is offered, the monitor is as `init`
-- leaves it, and the arrays have the program's size.
pub LiveReach-RelayReach :
    (disk : List ℕ → File) (S : Socket) (m : CameraMonitor) (cam : Camera) (conn : S.State)
    {c : Live S}
    → TakesAll S
    → m.pic_take_send ≡ 0
    → IsBuffer m.pic_packet
    → LiveReach disk S (begin_live S m cam conn) c
    → (r : Relay) × RelayReach empty_relay r
      × (S.wire c.conn ≡ S.wire conn ++ packets r.delivered)
      × (c.shots ≡ accepted r)
LiveReach-RelayReach disk S m cam conn T idle hm run =
    let (r, reach, v) = LiveReach-Matches disk S m cam conn T idle hm run in
    (r, reach, v.wired, v.captured)
