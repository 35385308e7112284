-- ===== src/Server/Catalog/Stages.antt =====
-- The states of the two handlers of video.go between their calls.
use learning_crossplane_e2e.Server.State.{State, record_event, span_start, span_event}

-- Before fgaCheck.
abbrev pub getting : State → State
getting s =
    record_event (span_event "Authorizing the user") (record_event (span_start "video-get") s)

abbrev pub posting : State → State
posting s =
    record_event (span_event "Authorizing the user") (record_event (span_start "video-post") s)

-- Before getDB.
abbrev pub get_connecting : State → State
get_connecting s = record_event (span_event "Establishing connection to the database") s

abbrev pub post_connecting : State → State
post_connecting s = record_event (span_event "Establishing connection to the database...") s

-- Before the values of the request are read, and before the video is inserted.
abbrev pub retrieving : State → State
retrieving s = record_event (span_event "Retrieving values...") s

abbrev pub inserting : State → State
inserting s = record_event (span_event "Retrieving data from the database...") (retrieving s)
