-- ===== src/Live/Idempotency.antt =====
-- backend/app/cache/idempotency.py: the response under a request id, written once (SET NX). The key
-- is the request id alone. That it expires after a day is left out.
use livequiz_platform.Prelude.{String, Bool, true, false, Option, some, is_some, if◌then◌else◌}
use livequiz_platform.Live.{Redis, Response, update_text}

unfoldable pub get : String → Redis → Option Response
get request_id r = r.idem request_id

unfoldable pub set : String → Response → Redis → Redis × Bool
set request_id response r =
    if is_some (r.idem request_id)
    then (r, false)
    else (record r { idem = update_text r.idem request_id (some response) }, true)
