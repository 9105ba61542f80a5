-- ===== src/Examples/Documents.antt =====
-- The operations on a `Disk` do what is documented of them.
use pgmem.Errors.{ok}
use pgmem.Backup.Restore.{attach_statement}
use pgmem.Examples.DiskLaws.{
  put-same, put-other, Untouched, untouched, read_vacuum, read_attach, read_detach, vacuumed-live,
  the_ok, serializer, deserializer, restorer, restored-step, attached-others, opened-Untouched,
  opened_either-Untouched, contents-Untouched, contents-eq-ok, opened-eq-ok, opened_either-eq-ok,
  restored-eq-none, vacuumed-eq-ok, attached-eq-ok,
}
use mathlib.Core.Path.{subst}
use pgmem.Examples.Disk.{temp, attached, storage, attach_name, done}
use pgmem.Backup.Holder.{restore_uri}
use pgmem.Backup.Documented.{Documented}
use pgmem.Common.{refl, ap, sym, ◌∙◌, ◌≡◌, ◌≢◌, some, [], ◌∷◌, nat_eq, if◌then◌else◌}
use pgmem.Common.Text.{Text, codes, text_eq, text_eq_iff}
use pgmem.Values.{Value}

pub documented : Documented storage (λ image. image) (λ d. d.live) (λ d. d.shared) (λ d. d.files)
documented = record {
  pool_uri = restore_uri;
  conn_uri = restore_uri;
  source = λ r. temp;
  target = restore_uri;
  is_main = λ c. nat_eq c 0;
  conn_main = λ c w w' h. rw (sym (the_ok (ap (λ u. u.1) h))) refl;
  conn_same = untouched;
  raw_same = λ c. untouched;
  query_same = λ c t. untouched;
  close_file_same = λ path. untouched;
  read_same = λ path w. contents-Untouched (w.files path) w;
  open_same = λ uri w.
      opened_either-Untouched (text_eq uri (restore_uri 1)) (text_eq uri (restore_uri 2)) w;
  finish_same = λ r. untouched;
  serialize_same = λ c w v driver f raw has.
      subst (λ r. Untouched v r.0) (sym (serializer c w driver f raw has v)) (untouched v);
  new_restore_same = λ c w v driver f path raw has.
      subst (λ r. Untouched v r.0) (sym (restorer c w driver f raw has path v))
        (opened-Untouched (text_eq path temp) c v);
  create_live = λ pattern w. refl;
  create_shared = λ pattern w. refl;
  write_live = λ path bytes w. refl;
  write_shared = λ path bytes w. refl;
  remove_live = λ path w. refl;
  remove_shared = λ path w. refl;
  vacuum_live = λ c name path w. vacuumed-live _ w;
  close_conn_live = λ c w. refl;
  close_pool_live = λ d w. refl;
  pool_conn_but =
      λ d w. record { but_live = refl; but_shared = λ other ne. refl; but_files = refl };
  step_shared = λ r w other ne. (restored-step r (w.files temp) w).but_shared other ne;
  write_done =
      λ path bytes w w' h. ap (λ u. u.0.files path) (sym h) ∙ put-same path (some bytes) w.files;
  read_done = λ path bytes w w' h. contents-eq-ok (w.files path) w w' bytes h;
  serialize_done = λ c w v v' driver f image on_main raw has h.
      sym (the_ok (sym (ap (λ u. u.1) (serializer c w driver f raw has v)) ∙ ap (λ u. u.1) h));
  vacuum_done = λ c name path w w' answer on_main h.
      (w.live name, vacuumed-eq-ok name path _ w w' answer (read_vacuum name path) h, refl);
  open_done = λ uri d w w' h.
      opened_either-eq-ok uri d w w' (text_eq uri (restore_uri 1)) (text_eq uri (restore_uri 2))
        (text_eq_iff uri (restore_uri 1)).0 (text_eq_iff uri (restore_uri 2)).0 h;
  pool_conn_done = λ d c w w' h. ap restore_uri (the_ok (sym (ap (λ u. u.1) h)));
  new_restore_done = λ c w v v' driver f path r raw has h.
      let (is, same) =
        opened-eq-ok (text_eq path temp) c r v v'
          (sym (restorer c w driver f raw has path v) ∙ h) in
      (sym ((text_eq_iff path temp).0 is), ap restore_uri (sym same));
  step_done = λ r image w w' h file. restored-eq-none r (w.files temp) image w w' h file;
  deserialize_others = λ c w v driver f image on_main raw has.
      subst
        (λ r.
          (r.0.shared ≡ v.shared)
          × ((name : Text) → name ≢ codes "main" → r.0.live name ≡ v.live name))
        (sym (deserializer c w driver f raw has image v))
        (refl, λ name ne. put-other (codes "main") name image v.live ne);
  deserialize_done = λ c w v v' driver f image on_main raw has h.
      ap (λ u. u.0.live (codes "main")) (sym h ∙ deserializer c w driver f raw has image v)
      ∙ put-same (codes "main") image v.live;
  detach_others = λ c name w on_main. rw on_main (
    ap (λ o. (attached [] o w).0.shared) (read_detach name),
    λ other ne. ap (λ o. (attached [] o w).0.live other) (read_detach name),
  );
  attach_others = λ c name uri w on_main. rw on_main (
      subst
        (λ o.
          ((attached (Value.string uri ∷ []) o w).0.shared ≡ w.shared)
          × ((other : Text)
              → other ≢ name
              → (attached (Value.string uri ∷ []) o w).0.live other ≡ w.live other))
        (sym (read_attach name)) (attached-others name uri w));
  attach_done = λ c name uri w w' answer database on_main h has.
      attached-eq-ok name uri _ w w' answer database (read_attach name)
        (sym (
            ap
              (λ b.
                if b
                then attached (Value.string uri ∷ []) (attach_name (attach_statement name)) w
                else (w, ok done))
              on_main)
          ∙ h)
        has;
}
