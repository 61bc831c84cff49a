-- ===== src/Web/Reports.antt =====
-- internal/handler/report_handler.go.
use rentcar_backend.Store.{Action, pure, ◌>>=◌}
use rentcar_backend.Reports.Repository.{ReportSummary}
use rentcar_backend.Reports.Service as Service
use rentcar_backend.Web.Replies.{Context, Reply, ok_reply}

-- `Summary`
unfoldable pub summary : Context → Action (Reply ReportSummary)
summary c = do
  found ←
      Service.summary (record { start_date = c.query "start_date"; end_date = c.query "end_date" })
  pure (ok_reply found)
