-- ===== src/Send/Tests.antt =====
-- Runs of the model of a send at a concrete host, and its theorems applied to them.
use clift.Base.{◌≡◌, ◌≢◌, refl, true, none, some, List, [], ◌∷◌, codes, Str, ok, err, arith}
use clift.Base.{◌<◌, ◌≤◌, sym, ◌∙◌, subst, false}
use clift.Base.Fallible.{ok-injective}
use clift.Base.Text.{trim}
use clift.Base.Utf8.{len}
use clift.Base.Int.{pos, negsuc}
use clift.Calendar.{SystemTime, format_date, format_timestamp, days_from_civil, civil_from_days}
use clift.Domain.BatchId.{from_random_bytes}
use clift.Domain.Limits.{LocalAttachment, check}
use clift.Domain.Limits.Laws.{Within}
use clift.Domain.RemotePath
use clift.Domain.RemotePath.{join, is_within}
use clift.Domain.SafeName
use clift.Domain.SafeName.{sanitize, repair, last_part, without_control, strip_edges, truncate}
use clift.Error.{ErrorKind}
use clift.Relayd.Address.{Duration, from_secs}
use clift.Remote.Samples.{host, keepsake, Stays, removal-Stays, upload-Stays, inbox_root}
use clift.Send.{SendOutcome, SendPolicy, should_sweep, perform, tidy_after, also_removed, note_of}
use clift.Send.Inside.{Confined, perform-Confined, perform-not_Within}
use clift.Send.Outcome.{Sent, perform-Sent}
use clift.Send.Sweep.{tidy_after_lem}
use clift.Staging.Atomic.{failed}
use clift.Staging.Clean.{within, Action, clean, older_than}
use clift.Staging.Inbox.{InboxLocation, staging_error, home_default}
use clift.Staging.Locate.{locate_inbox_from}

abbrev shot : LocalAttachment
shot = record { path = codes "/home/me/shot.png"; name = codes "shot.png"; size = 7 }

abbrev policy : SendPolicy
policy = record {
  limits = record { max_file_size = 10; max_batch_size = 10; max_files = 2 };
  remote_dir = none;
  remote_home = none;
  remote_cache_home = none;
}

abbrev id : Str
id = codes "0a000000000000000000000000000001"

-- 2026-08-30, at noon.
abbrev noon : SystemTime
noon = pos (from_secs 1788091200)

noon_dated : format_date noon ≡ codes "2026-08-30"
unfolding format_date
noon_dated = refl

noon_stamped : format_timestamp noon ≡ codes "2026-08-30T12:00:00Z"
unfolding format_timestamp
noon_stamped = refl

leap_day_back :
    (civil_from_days (pos 11016) ≡ (pos 2000, 2, 29))
    × (days_from_civil (pos 2000) 2 29 ≡ pos 11016)
unfolding civil_from_days days_from_civil
leap_day_back = (refl, refl)

before_epoch : format_timestamp (negsuc (from_secs 1)) ≡ codes "1969-12-31T23:59:59Z"
unfolding format_timestamp
before_epoch = refl

before_era : days_from_civil (negsuc 0) 12 31 ≡ negsuc 719528
unfolding days_from_civil
before_era = refl

before_era_back : civil_from_days (negsuc 719528) ≡ (negsuc 0, 12, 31)
unfolding civil_from_days
before_era_back = refl

abbrev outcome : SendOutcome
outcome = record {
  batch = record {
    directory = codes "/home/dev/.cache/clift/inbox/2026-08-30/0a000000000000000000000000000001";
    files =
        record {
          name = codes "shot.png";
          path =
              codes
                "/home/dev/.cache/clift/inbox/2026-08-30/0a000000000000000000000000000001/shot.png";
          size = 7;
        }
        ∷ [];
  };
  insertion_text =
      codes
        "Please inspect this file: '/home/dev/.cache/clift/inbox/2026-08-30/0a000000000000000000000000000001/shot.png'";
  inbox_warning = none;
  batch_id = id;
  inbox_root = inbox_root;
}

abbrev host_after : List Str
host_after =
    codes "/home/dev/.cache/clift/inbox/2026-08-30/0a000000000000000000000000000001/shot.png"
    ∷ keepsake
    ∷ []

shot_sent :
    perform host (λ s. s) (shot ∷ []) policy noon (ok id) (keepsake ∷ []) ≡ (host_after, ok outcome)
unfolding perform sanitize SafeName.new repair last_part without_control strip_edges truncate len
    trim RemotePath.new
shot_sent = refl

perform-Sent_example :
    Sent host (λ s. s) (shot ∷ []) policy noon (ok id) (keepsake ∷ []) host_after outcome
perform-Sent_example =
    perform-Sent host (λ s. s) (shot ∷ []) policy noon (ok id) (keepsake ∷ []) host_after outcome
      shot_sent

within-ne-keepsake : (path : Str) → within path inbox_root ≡ true → path ≢ keepsake
unfolding within is_within
within-ne-keepsake path h e = cc (rw e at h)

host-Confined : Confined host inbox_root Stays
host-Confined = record {
  guarded = record {
    uploads = λ local path h s p. upload-Stays local path s p;
    removes = λ path h s p. removal-Stays path s (within-ne-keepsake path h) p;
  };
  makes = λ directory h s p. p;
}

abbrev home_inbox : InboxLocation
home_inbox = record {
  root = inbox_root;
  home = codes "/home/dev";
  source = home_default;
  known_cache_home = some (codes "/home/dev/.cache");
}

home_located : (locate_inbox_from host none none none (keepsake ∷ [])).1 ≡ ok home_inbox
unfolding locate_inbox_from trim SafeName.new len RemotePath.new
home_located = refl

inbox_root_valid : RemotePath.new inbox_root ≡ ok inbox_root
unfolding RemotePath.new
inbox_root_valid = refl

located_Confined :
    (inbox : InboxLocation)
    → (locate_inbox_from host none none none (keepsake ∷ [])).1 ≡ ok inbox
    → RemotePath.IsRemotePath inbox.root × Confined host inbox.root Stays
located_Confined inbox e =
    subst (λ inbox. RemotePath.IsRemotePath inbox.root × Confined host inbox.root Stays)
      (ok-injective (sym home_located ∙ e)) (inbox_root_valid, host-Confined)

shot_fits : check policy.limits (shot ∷ []) ≡ ok tt
unfolding check
shot_fits = refl

home_Stays : Stays (locate_inbox_from host none none none (keepsake ∷ [])).0
unfolding locate_inbox_from
home_Stays = refl

perform-Confined_example :
    Stays (perform host (λ s. s) (shot ∷ []) policy noon (ok id) (keepsake ∷ [])).0
perform-Confined_example =
    perform-Confined host (λ s. s) (shot ∷ []) policy noon (ok id) (keepsake ∷ []) Stays shot_fits
      home_Stays located_Confined

shots_above : ¬ Within policy.limits (shot ∷ shot ∷ [])
shots_above w = omega (arith, w.whole)

perform-not_Within_example :
    perform host (λ s. s) (shot ∷ shot ∷ []) policy noon (ok id) []
    ≡ ([], err (failed (staging_error ErrorKind.limit_exceeded)))
perform-not_Within_example =
    perform-not_Within host (λ s. s) (shot ∷ shot ∷ []) policy noon (ok id) [] (omega arith)
      shots_above

drawn_id :
    from_random_bytes (0x0a ∷ 0 ∷ 0 ∷ 0 ∷ 0 ∷ 0 ∷ 0 ∷ 0 ∷ 0 ∷ 0 ∷ 0 ∷ 0 ∷ 0 ∷ 0 ∷ 0 ∷ 1 ∷ [])
    ≡ ok id
unfolding from_random_bytes
drawn_id = refl

tidy_after_lem_example :
    (tidy_after host outcome none noon [] ≡ ([], none))
    × ((retention : Duration)
        → (10 < 31
            → let (s', answer) =
                clean host inbox_root Action.remove (older_than retention) noon [] in
              tidy_after host outcome (some retention) noon [] ≡ (s', note_of answer))
          × (31 ≤ 10 → tidy_after host outcome (some retention) noon [] ≡ ([], none)))
tidy_after_lem_example =
    tidy_after_lem host outcome noon 10
      (0 ∷ 0 ∷ 0 ∷ 0 ∷ 0 ∷ 0 ∷ 0 ∷ 0 ∷ 0 ∷ 0 ∷ 0 ∷ 0 ∷ 0 ∷ 0 ∷ 1 ∷ []) [] (omega arith) drawn_id

-- 31 is the first byte after which no sweep follows.
thirty_one_not_swept : should_sweep (codes "1f000000000000000000000000000000") ≡ false
unfolding should_sweep
thirty_one_not_swept = refl

swept : (tidy_after host outcome (some (from_secs 1)) noon []).1 ≡ some (also_removed 1)
unfolding tidy_after join is_within
swept = refl
