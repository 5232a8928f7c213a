-- ===== src/MotionServer/Request.antt =====
-- C/source/production/motion_server.c: the two parsers of requests, `parse_http_request` for the
-- clients and `parse_motion_request` for the camera.
pub mod Accepts
use edaf55_project.Base.{ℕ, ◌+◌, List, Option, none, some, ◌&&◌, codes, drop, ℤ, pos, if◌then◌else◌}
use edaf55_project.Text.{strncmp, atol}
use edaf55_project.MotionServer.{GlobalState}

-- `parse_http_request(buf, sz)`; the size is not used.
unfoldable pub parse_http_request : List ℕ → ℕ
parse_http_request buf =
    let r = strncmp buf (codes "GET ") 4 in
    let rl = strncmp buf (codes "get ") 4 in
    let path = strncmp (drop 4 buf) (codes "/ ") 2 in
    let path_l = strncmp (drop 4 buf) (codes "/motion.txt ") 12 in
    if r && rl then 501 else if path && path_l then 404 else 0

-- `state->t_remote` is set from what stands behind `?Message=`; `none` where `atol` is undefined.
unfoldable pub remote_time : List ℕ → Option ℤ
remote_time buf =
    if strncmp (drop 11 buf) (codes "?Message=") 9 then some (pos 0) else atol (drop (11 + 9) buf)

-- The state that a notification leaves at the local time `now`.
abbrev pub notified : Option ℤ → ℤ → GlobalState → Option (ℕ × GlobalState)
notified none now state = none
notified (some t) now state = some (1, record state { t_remote = t; t_local = now })

-- `parse_motion_request(buf, sz, state)`, where `time(0)` gives `now`: the result and the state.
unfoldable pub parse_motion_request : List ℕ → ℤ → GlobalState → Option (ℕ × GlobalState)
unfolding remote_time
parse_motion_request buf now state =
    let r = strncmp buf (codes "GET ") 4 in
    let rl = strncmp buf (codes "get ") 4 in
    if r && rl
    then some (501, state)
    else if strncmp (drop 4 buf) (codes "/motion") 7
    then some (404, state)
    else notified (remote_time buf) now state
