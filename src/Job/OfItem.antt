-- ===== src/Job/OfItem.antt =====
-- The file item as the sink of a response's body.
use apt_cacher_ng.Base.{ℕ, ◌≡◌, Bool, true, false, List, ◌++◌, arith, Bytes, inr}
use apt_cacher_ng.FileItem.{Store, HeadWrite, dl_finish}
use apt_cacher_ng.FileItem.Writer.{OpenEnv}
use apt_cacher_ng.FileItem.Added.{
  WriteResult, Verdict, accepted, refused, undefined, blocked, dl_add_data,
}
use apt_cacher_ng.FileItem.Received.{received}
use apt_cacher_ng.FileItem.Opening.{Ready, dl_add_data-received}
use apt_cacher_ng.Job.{Sink}

abbrev pub is_accepted : Verdict → Bool
is_accepted accepted = true
is_accepted _ = false

abbrev pub judged : Store × Verdict → Store × Bool
judged (s, v) = (s, is_accepted v)

accepted_pair : (m : Store × Verdict) {t : Store} → judged m ≡ (t, true) → m ≡ (t, accepted)
accepted_pair (s, accepted) h = ground arith
accepted_pair (s, refused) h = absurd (ground arith)
accepted_pair (s, undefined) h = absurd (ground arith)
accepted_pair (s, blocked) h = absurd (ground arith)

module _ (allocspace : ℕ) (e : OpenEnv) (rs : List WriteResult) (how : HeadWrite) where
  -- Each DlAddData finds the same answers of the system calls.
  abbrev pub add_to_item : Bytes → Store → Store × Bool
  add_to_item chunk s = judged (dl_add_data allocspace e rs chunk s)

  pub add_to_item-received :
      (chunk : Bytes) (s t : Store)
      → Ready s
      → add_to_item chunk s ≡ (t, true)
      → Ready t × (received t ≡ received s ++ chunk)
  add_to_item-received chunk s t v h =
      let (streaming, grown, _) =
        dl_add_data-received allocspace e rs chunk s t v
          (accepted_pair (dl_add_data allocspace e rs chunk s) h) in
      (inr streaming, grown)

  abbrev pub item_sink : Sink
  item_sink = record {
    State = Store;
    add = add_to_item;
    finish = dl_finish how false;
    Valid = Ready;
    got = received;
    add-got = add_to_item-received;
  }
