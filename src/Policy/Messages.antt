-- ===== src/Policy/Messages.antt =====
-- policy/engine.py: the reasons of its decisions.
pub mod Reroute
use samsung.Prelude.{
  ℤ, Option, List, ◌++◌, Text, codes, str_nat, str_int, str_optional, repr_list, Float,
}
use samsung.Schemas.{SnapshotStatus, show_status, Severity, show_severity}
use samsung.Policy.Recovery.{Marker, print_marker}

pub snapshot_reason : SnapshotStatus → Text
snapshot_reason s = codes "snapshot.status=" ++ (show_status s ++ codes " -> 관측 불가, 액션 억제(noop)")

pub isolate_reason : List Text → ℤ → Severity → Text → Text
isolate_reason culprits weight severity summary =
    codes "에러 집중 backend="
    ++ (repr_list culprits
        ++ (codes " weight->"
            ++ (str_int weight
                ++ (codes "로 격리 (severity="
                    ++ (show_severity severity ++ (codes "). 근거: " ++ summary))))))

pub isolation_denied : List Text → Text
isolation_denied culprits =
    codes "allowRouteIsolation=false -> backend "
    ++ (repr_list culprits ++ codes " 격리 불가, 증설로 대응 전환")

pub grow_reason : Severity → ℤ → ℤ → Text → Text
grow_reason severity current target summary =
    codes "전체 트래픽 이상(severity="
    ++ (show_severity severity
        ++ (codes ") -> 증설 "
            ++ (str_int current
                ++ (codes "->" ++ (str_int target ++ (codes ". 근거: " ++ summary))))))

pub no_growth_reason : Severity → Option ℤ → Option ℤ → Text → Text
no_growth_reason severity current target summary =
    codes "트래픽 이상 감지(severity="
    ++ (show_severity severity
        ++ (codes ")했으나 증설 목표 산출 불가/불필요(current_pods="
            ++ (str_optional current
                ++ (codes ", target=" ++ (str_optional target ++ (codes "). 근거: " ++ summary))))))

-- the text before the marker; `next` is the marker that follows it
unfoldable pub reroute_prefix : Marker → Text → Text
reroute_prefix next summary =
    codes "이상 해소 확인 -> 이전에 격리된 backend="
    ++ (repr_list next.backends
        ++ (codes " 정상 weight(100)로 점진 복구 중 (진행 "
            ++ (str_nat next.done
                ++ (codes "/"
                    ++ (str_nat next.total ++ (codes "). 관측: " ++ (summary ++ codes " ")))))))

unfoldable pub reroute_reason : Marker → Text → Text
unfolding reroute_prefix
reroute_reason next summary = reroute_prefix next summary ++ print_marker next

pub normal_reason : Text → Text
normal_reason scale_reason = codes "모든 지표 정상 -> 유지. " ++ scale_reason

module _ {F : Type 0} ⦃fl : Float F⦄ where
  pub cooldown_reason : F → ℤ → Text → Text
  cooldown_reason remaining cooldown_seconds summary =
      codes "cooldown 활성(잔여 "
      ++ (fl.fixed 0 remaining
          ++ (codes "s / cooldownSeconds="
              ++ (str_int cooldown_seconds ++ (codes ") -> 액션 억제. 관측: " ++ summary))))
