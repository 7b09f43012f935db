-- ===== src/Adb/Manager/Reverse.antt =====
-- What a forwarded port that was reported stands for.
use phone_cam.Prelude.{
  ℕ, ◌≡◌, ◌<◌, refl, sym, ap, ◌∙◌, arith, true, Option, some, List, Result, ok, err, ◌==◌, nat_eq,
  Bool-cases, Option-cases, inl, inr,
}
use phone_cam.Text.{Text}
use phone_cam.Adb.Devices.{AdbDevice, AdbError}
use phone_cam.Adb.Binary.{Output, Machine, Environment}
use phone_cam.Adb.Manager.{
  choose_target, requested, AdbManager, Action, then_do, lift, run_success, run_with, answer_of,
  output_text, resolve_adb_path, ensure_server_started, list_devices_raw, resolve_target_serial,
  reverse_args, reverse_checked, reverse,
}
use phone_cam.Adb.Manager.Target.{IsTarget, choose_target-ok_iff}

module _ (M : Machine) (E : Environment M) where
  open M use {PathBuf, Outside}

  -- A call that ends well did its two parts.
  record Done {A B : Type 0} (r : AdbManager M E × Result (AdbError PathBuf) A)
      (rest : A → Action M E B) (m : AdbManager M E) (b : B) : Type 0 where
    middle : AdbManager M E
    value : A
    first : r ≡ (middle, ok value)
    second : rest value middle ≡ (m, ok b)

  done :
      {A B : Type 0} (r : AdbManager M E × Result (AdbError PathBuf) A) (rest : A → Action M E B)
      (m : AdbManager M E) (b : B)
      → then_do M E rest r ≡ (m, ok b)
      → Done r rest m b
  done (n, ok a) rest m b h = record { middle = n; value = a; first = refl; second = h }
  done (n, err e) rest m b h = absurd (ground arith)

  -- The command ran with success, and left the outside as it is.
  pub record Ran (args : List Text) (m : AdbManager M E) : Type 0 where
    pub path : PathBuf
    pub before : Outside
    pub output : Output
    pub executed : M.execute path args before ≡ (m.outside, some output)
    pub success : output.success ≡ true

  -- What `reverse` did.
  pub record Reversed (device_port host_port : ℕ) (serial : Option Text) (m : AdbManager M E)
      (target : Text) : Type 0 where
    pub device_port_pos : 0 < device_port
    pub host_port_pos : 0 < host_port
    pub asked : AdbManager M E
    pub answered : AdbManager M E
    pub listed : List AdbDevice
    pub list_lem : list_devices_raw M E asked ≡ (answered, ok listed)
    pub chosen : IsTarget listed (requested serial) target
    pub ran : Ran (reverse_args M E target device_port host_port) m

  output_text-ok :
      (args : List Text) (path : PathBuf) (o : Output) (t : Text)
      → output_text M E path args o ≡ ok t
      → o.success ≡ true
  output_text-ok args path o t h = elim (Option-cases (M.from_utf8 o.stdout)) [
    | inl a ↦ absurd (ground arith)
    | inr (x, a) ↦ elim (Option-cases (M.from_utf8 o.stderr)) [
      | inl b ↦ absurd (ground arith)
      | inr (y, b) ↦ ground arith
    ]
  ]

  run_with-ok :
      (args : List Text) (path : PathBuf) (m n : AdbManager M E) (t : Text)
      → run_with M E args path m ≡ (n, ok t)
      → Ran args n
  unfolding run_with
  run_with-ok args path m n t h =
      let r = M.execute path args m.outside in
      let answered : answer_of M E path args r.1 ≡ ok t = ap (λ x. x.1) h in
      let left : r.0 ≡ n.outside = ap (λ x. x.0.outside) h in
      elim (Option-cases r.1) [
        | inl e ↦ absurd (ground arith)
        | inr (o, e) ↦ record {
          path = path;
          before = m.outside;
          output = o;
          executed = ap (λ x. (r.0, x)) e ∙ ap (λ x. (x, some o)) left;
          success = output_text-ok args path o t (ap (answer_of M E path args) (sym e) ∙ answered);
        }
      ]

  run_success-ok :
      (args : List Text) (m n : AdbManager M E) (t : Text)
      → run_success M E args m ≡ (n, ok t)
      → Ran args n
  unfolding run_success
  run_success-ok args m n t h =
      let d = done (resolve_adb_path M E m) (λ path. run_with M E args path) n t h in
      run_with-ok args d.value d.middle n t d.second

  module _ (device_port host_port : ℕ) (serial : Option Text) where
    -- What `reverse` does after each of its calls.
    abbrev after_call : Text → Text → Action M E Text
    after_call target t = lift M E (ok target)

    abbrev after_choice : Text → Action M E Text
    after_choice target m =
        then_do M E (after_call target)
          (run_success M E (reverse_args M E target device_port host_port) m)

    abbrev after_list : List AdbDevice → Action M E Text
    after_list listed = lift M E (choose_target listed (requested serial))

    abbrev after_start : Unit {0} → Action M E Text
    after_start u m = then_do M E after_choice (resolve_target_serial M E serial m)

    forwarded :
        (m n : AdbManager M E) (target : Text)
        → reverse_checked M E device_port host_port serial m ≡ (n, ok target)
        → 0 < device_port
        → 0 < host_port
        → Reversed device_port host_port serial n target
    unfolding reverse_checked resolve_target_serial
    forwarded m n target h p q =
        let server = done (ensure_server_started M E m) after_start n target h in
        let choice =
          done (resolve_target_serial M E serial server.middle) after_choice n target
            server.second in
        let listing =
          done (list_devices_raw M E server.middle) after_list choice.middle choice.value
            choice.first in
        let args = reverse_args M E choice.value device_port host_port in
        let call =
          done (run_success M E args choice.middle) (after_call choice.value) n target
            choice.second in
        let picked : choose_target {P = PathBuf} listing.value (requested serial)
            ≡ ok choice.value =
          ap (λ x. x.1) listing.second in
        let same : choice.value ≡ target = let e = ap (λ x. x.1) call.second in ground arith in
        let left : call.middle ≡ n = ap (λ x. x.0) call.second in
        let ran = run_success-ok args choice.middle call.middle call.value call.first in
        rw (sym same) (record {
          device_port_pos = p;
          host_port_pos = q;
          asked = server.middle;
          answered = listing.middle;
          listed = listing.value;
          list_lem = listing.first;
          chosen = (choose_target-ok_iff listing.value (requested serial) choice.value).0 picked;
          ran = rw (sym left) ran;
        })

    -- If `reverse` reports a device, both ports are positive, adb has listed devices of which it is the
    -- one that the request means, and the command that forwards the port on it ran with success, as the
    -- last thing that was done.
    pub reverse-Reversed :
        (m n : AdbManager M E) (target : Text)
        → reverse M E device_port host_port serial m ≡ (n, ok target)
        → Reversed device_port host_port serial n target
    unfolding reverse
    reverse-Reversed m n target h = elim (Bool-cases (device_port == 0)) [
      | inl d ↦ absurd (ground arith)
      | inr d ↦ elim (Bool-cases (host_port == 0)) [
        | inl k ↦ absurd (ground arith)
        | inr k ↦ forwarded m n target (ground arith) (ground arith) (ground arith)
      ]
    ]
